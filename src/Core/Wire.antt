-- ===== src/Core/Wire.antt =====
-- core/src/wire.rs: the 49-byte fragment of an intent that travels in an instruction.
pub mod Encoding
pub mod Decoding
use mathlib.Core.Bool.{cond}
use solana_hybrid_pq_account.Base.{
  ℕ, ◌+◌, Bool, true, false, not, ◌||◌, List, [], ◌∷◌, Bytes, length, ◌==◌, if◌then◌else◌,
}
use solana_hybrid_pq_account.Base.Buffer.{slice, byte_at, write}
use solana_hybrid_pq_account.Base.Layout.{zeros}
use solana_hybrid_pq_account.Base.Words.{to_le_bytes, from_le_bytes}
use solana_hybrid_pq_account.Core.RecoveryOp.{RecoveryOp, from_u8, as_u8}
use solana_hybrid_pq_account.Core.Error.{
  Result, ok, err, ◌>>=◌, ◌>>◌, require, refuse, ok_or, malformed_instruction_data,
  unsupported_action,
}
use solana_hybrid_pq_account.Core.Intent.{
  Action, transfer_sol, rotate_ed25519_key, rotate_falcon_key, transfer_spl, change_policy,
  recover_account, set_recovery_config, cancel_social_recovery, tag, AuthorizationIntent,
  intent_version,
}

abbrev pub execute_intent_wire_len : ℕ
execute_intent_wire_len = 49

pub record ExecuteIntentWire : Type 0 where
  pub expiry_slot : ℕ
  pub action : Action

-- The `match self.action` of `encode`, on the buffer `out`.
unfoldable pub encode_body : Action → Bytes → Bytes
encode_body (transfer_sol recipient lamports) out =
    write (9 + 32) (to_le_bytes 8 lamports) (write 9 recipient out)
encode_body (rotate_ed25519_key new_pubkey) out = write 9 new_pubkey out
encode_body (rotate_falcon_key new_pubkey_hash) out = write 9 new_pubkey_hash out
encode_body (transfer_spl destination amount) out =
    write (9 + 32) (to_le_bytes 8 amount) (write 9 destination out)
encode_body (change_policy new_policy threshold) out =
    write (9 + 8) (to_le_bytes 8 threshold) (write 9 (new_policy ∷ []) out)
encode_body (recover_account op new_ed25519) out =
    write (9 + 8) new_ed25519 (write 9 (as_u8 op ∷ []) out)
encode_body (set_recovery_config guardian_ed25519 delay_slots) out =
    write (9 + 32) (to_le_bytes 8 delay_slots) (write 9 guardian_ed25519 out)
encode_body cancel_social_recovery out = out

unfoldable pub encode : ExecuteIntentWire → Bytes
encode w =
    let out = write 0 (to_le_bytes 8 w.expiry_slot) (zeros execute_intent_wire_len) in
    encode_body w.action (write 8 (tag w.action ∷ []) out)

-- `body.iter().any(|&b| b != 0)`
unfoldable pub any_nonzero : Bytes → Bool
any_nonzero [] = false
any_nonzero (b ∷ bs) = not (b == 0) || any_nonzero bs

-- The arms of `Action::from_wire`.
unfoldable pub from_wire_arm : ℕ → Bytes → Result Action
from_wire_arm t body =
    if t == 1
    then ok (transfer_sol (slice 0 32 body) (from_le_bytes (slice 32 8 body)))
    else if t == 2
    then ok (transfer_spl (slice 0 32 body) (from_le_bytes (slice 32 8 body)))
    else if t == 3
    then ok (rotate_ed25519_key (slice 0 32 body))
    else if t == 4
    then ok (rotate_falcon_key (slice 0 32 body))
    else if t == 5
    then ok (change_policy (byte_at 0 body) (from_le_bytes (slice 8 8 body)))
    else if t == 6
    then (do
      op ← ok_or (from_u8 (byte_at 0 body)) unsupported_action
      ok (recover_account op (slice 8 32 body)))
    else if t == 7
    then ok (set_recovery_config (slice 0 32 body) (from_le_bytes (slice 32 8 body)))
    else if t == 8
    then (do refuse (any_nonzero body) malformed_instruction_data; ok cancel_social_recovery)
    else err unsupported_action

unfoldable pub from_wire : ℕ → Bytes → Result Action
from_wire t body = do require (length body == 40) malformed_instruction_data; from_wire_arm t body

unfoldable pub decode : Bytes → Result ExecuteIntentWire
decode bytes = do
  require (length bytes == execute_intent_wire_len) malformed_instruction_data
  let expiry = from_le_bytes (slice 0 8 bytes)
  action ← from_wire (byte_at 8 bytes) (slice 9 40 bytes)
  ok (record { expiry_slot = expiry; action = action })

unfoldable pub from_intent : AuthorizationIntent → ExecuteIntentWire
from_intent i = record { expiry_slot = i.expiry_slot; action = i.action }

pub record IntentContext : Type 0 where
  pub chain_domain : Bytes
  pub program_id : Bytes
  pub account : Bytes
  pub nonce : ℕ

unfoldable pub reconstruct_intent : IntentContext → ExecuteIntentWire → AuthorizationIntent
reconstruct_intent ctx w = record {
  version = intent_version;
  chain_domain = ctx.chain_domain;
  program_id = ctx.program_id;
  account = ctx.account;
  nonce = ctx.nonce;
  expiry_slot = w.expiry_slot;
  action = w.action;
}
