-- ===== src/Core/Canonical.antt =====
-- core/src/canonical.rs: the 172-byte preimage that both schemes sign the hash of.
pub mod Body
pub mod Fields
pub mod Injective
use solana_hybrid_pq_account.Base.{ℕ, ◌+◌, List, [], ◌∷◌, Bytes}
use solana_hybrid_pq_account.Base.Buffer.{write}
use solana_hybrid_pq_account.Base.Layout.{zeros}
use solana_hybrid_pq_account.Base.Words.{to_le_bytes}
use solana_hybrid_pq_account.Core.RecoveryOp.{as_u8}
use solana_hybrid_pq_account.Core.Intent.{
  Action, transfer_sol, rotate_ed25519_key, rotate_falcon_key, transfer_spl, change_policy,
  recover_account, set_recovery_config, cancel_social_recovery, tag, AuthorizationIntent,
}

-- "DUALKEY_SOLANA_V1"
abbrev pub domain_tag : Bytes
domain_tag =
    b'D' ∷ b'U' ∷ b'A' ∷ b'L' ∷ b'K' ∷ b'E' ∷ b'Y' ∷ b'_' ∷ b'S' ∷ b'O' ∷ b'L' ∷ b'A' ∷ b'N' ∷ b'A'
    ∷ b'_' ∷ b'V' ∷ b'1' ∷ []

abbrev pub domain_tag_len : ℕ
domain_tag_len = 17

abbrev pub action_body_len : ℕ
action_body_len = 40

abbrev pub canonical_preimage_len : ℕ
canonical_preimage_len = 172

-- The `match intent.action` of `canonical_preimage`, on the buffer `out`.
unfoldable pub write_body : Action → Bytes → Bytes
write_body (transfer_sol recipient lamports) out =
    write (132 + 32) (to_le_bytes 8 lamports) (write 132 recipient out)
write_body (rotate_ed25519_key new_pubkey) out = write 132 new_pubkey out
write_body (rotate_falcon_key new_pubkey_hash) out = write 132 new_pubkey_hash out
write_body (transfer_spl destination amount) out =
    write (132 + 32) (to_le_bytes 8 amount) (write 132 destination out)
write_body (change_policy new_policy threshold) out =
    write (132 + 8) (to_le_bytes 8 threshold) (write 132 (new_policy ∷ []) out)
write_body (recover_account op new_ed25519) out =
    write (132 + 8) new_ed25519 (write 132 (as_u8 op ∷ []) out)
write_body (set_recovery_config guardian_ed25519 delay_slots) out =
    write (132 + 32) (to_le_bytes 8 delay_slots) (write 132 guardian_ed25519 out)
write_body cancel_social_recovery out = out

-- The writes of `canonical_preimage` that stand before the action's tag.
unfoldable pub write_context : AuthorizationIntent → Bytes → Bytes
write_context i out =
    let a = write 0 (domain_tag_len ∷ []) out in
    let b = write 1 domain_tag a in
    let c = write 18 (i.version ∷ []) b in
    let d = write 19 i.chain_domain c in
    let e = write 51 i.program_id d in
    let f = write 83 i.account e in
    let g = write 115 (to_le_bytes 8 i.nonce) f in write 123 (to_le_bytes 8 i.expiry_slot) g

unfoldable pub canonical_preimage : AuthorizationIntent → Bytes
canonical_preimage i =
    let out = write_context i (zeros canonical_preimage_len) in
    write_body i.action (write 131 (tag i.action ∷ []) out)
