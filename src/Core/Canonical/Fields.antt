-- ===== src/Core/Canonical/Fields.antt =====
-- `canonical_preimage` against the concatenation of its fields.
use mathlib.Core.List.{append-nil, append_assoc}
use solana_hybrid_pq_account.Base.{
  ◌≡◌, refl, ap, [], ◌∷◌, ◌++◌, ◌∙◌, arith, Bytes, length, length-append,
}
use solana_hybrid_pq_account.Base.Layout.{zeros, zeros-zero, write_next}
use solana_hybrid_pq_account.Base.Words.{to_le_bytes, length-to_le_bytes}
use solana_hybrid_pq_account.Core.RecoveryOp.{as_u8}
use solana_hybrid_pq_account.Core.Intent.{
  Action, transfer_sol, rotate_ed25519_key, rotate_falcon_key, transfer_spl, change_policy,
  recover_account, set_recovery_config, cancel_social_recovery, tag, IsAction, AuthorizationIntent,
  IsIntent,
}
use solana_hybrid_pq_account.Core.Canonical.{
  domain_tag, domain_tag_len, write_body, write_context, canonical_preimage,
}
use solana_hybrid_pq_account.Core.Canonical.Body.{action_body, write_key, write_pair, write_gap}

pub write_body-action_body :
    (a : Action) (p : Bytes)
    → IsAction a
    → length p ≡ 132
    → write_body a (p ++ zeros 40) ≡ p ++ action_body a
unfolding write_body action_body
write_body-action_body (transfer_sol r l) p h e =
    write_pair p 132 (omega arith) r (to_le_bytes 8 l) 40 164 (omega (arith, length-to_le_bytes))
      (omega arith)
write_body-action_body (rotate_ed25519_key k) p h e =
    write_key p 132 (omega arith) k 40 8 (omega arith)
write_body-action_body (rotate_falcon_key k) p h e =
    write_key p 132 (omega arith) k 40 8 (omega arith)
write_body-action_body (transfer_spl r l) p h e =
    write_pair p 132 (omega arith) r (to_le_bytes 8 l) 40 164 (omega (arith, length-to_le_bytes))
      (omega arith)
write_body-action_body (change_policy b t) p h e =
    write_gap p 132 (omega arith) b (to_le_bytes 8 t) 40 24 (omega (arith, length-to_le_bytes))
write_body-action_body (recover_account op k) p h e =
    write_gap p 132 (omega arith) (as_u8 op) k 40 0 (omega arith)
    ∙ ap (λ l. p ++ (as_u8 op ∷ (zeros 7 ++ k ++ l))) zeros-zero
    ∙ ap (λ l. p ++ (as_u8 op ∷ l)) (append-nil (zeros 7 ++ k))
write_body-action_body (set_recovery_config g d) p h e =
    write_pair p 132 (omega arith) g (to_le_bytes 8 d) 40 164 (omega (arith, length-to_le_bytes))
      (omega arith)
write_body-action_body cancel_social_recovery p h e = refl

-- Everything that the preimage says before the action: 131 bytes.
unfoldable pub context_fields : AuthorizationIntent → Bytes
context_fields i =
    domain_tag_len ∷ domain_tag
    ++ i.version ∷ []
    ++ i.chain_domain
    ++ i.program_id
    ++ i.account
    ++ to_le_bytes 8 i.nonce
    ++ to_le_bytes 8 i.expiry_slot

pub length-context_fields : (i : AuthorizationIntent) → IsIntent i → length (context_fields i) ≡ 131
unfolding context_fields
length-context_fields i h = simp (length-append, length-to_le_bytes) (omega arith)

module _ (i : AuthorizationIntent) (h : IsIntent i) where
  sizes₄ : 51 ≡ length (domain_tag_len ∷ domain_tag ++ i.version ∷ [] ++ i.chain_domain)
  sizes₄ = omega (arith, length-append {0})

  sizes₅ :
      83 ≡ length (domain_tag_len ∷ domain_tag ++ i.version ∷ [] ++ i.chain_domain ++ i.program_id)
  sizes₅ = simp length-append (omega arith)

  sizes₆ :
      115
      ≡ length (
          domain_tag_len ∷ domain_tag
          ++ i.version ∷ []
          ++ i.chain_domain
          ++ i.program_id
          ++ i.account)
  sizes₆ = simp length-append (omega arith)

  sizes₇ :
      123
      ≡ length (
          domain_tag_len ∷ domain_tag
          ++ i.version ∷ []
          ++ i.chain_domain
          ++ i.program_id
          ++ i.account
          ++ to_le_bytes 8 i.nonce)
  sizes₇ = simp (length-append, length-to_le_bytes) (omega arith)

write_context-context_fields :
    (i : AuthorizationIntent)
    → IsIntent i
    → write_context i (zeros 172) ≡ context_fields i ++ zeros 41
unfolding write_context context_fields
write_context-context_fields i h =
    let p₁ : Bytes = domain_tag_len ∷ [] in
    let p₂ : Bytes = p₁ ++ domain_tag in
    let p₃ : Bytes = p₂ ++ i.version ∷ [] in
    let p₄ : Bytes = p₃ ++ i.chain_domain in
    let p₅ : Bytes = p₄ ++ i.program_id in
    let p₆ : Bytes = p₅ ++ i.account in
    let p₇ : Bytes = p₆ ++ to_le_bytes 8 i.nonce in
    let e₁ = write_next _ [] p₁ 0 172 171 refl (omega arith) (omega arith) in
    let e₂ = write_next _ p₁ domain_tag 1 171 154 e₁ (omega arith) (omega arith) in
    let e₃ = write_next _ p₂ (i.version ∷ []) 18 154 153 e₂ (omega arith) (omega arith) in
    let e₄ = write_next _ p₃ i.chain_domain 19 153 121 e₃ (omega arith) (omega arith) in
    let e₅ = write_next _ p₄ i.program_id 51 121 89 e₄ (sizes₄ i h) (omega arith) in
    let e₆ = write_next _ p₅ i.account 83 89 57 e₅ (sizes₅ i h) (omega arith) in
    let e₇ =
      write_next _ p₆ (to_le_bytes 8 i.nonce) 115 57 49 e₆ (sizes₆ i h)
        (omega (arith, length-to_le_bytes)) in
    write_next _ p₇ (to_le_bytes 8 i.expiry_slot) 123 49 41 e₇ (sizes₇ i h)
      (omega (arith, length-to_le_bytes))

-- The preimage is the length-prefixed domain tag, version, chain domain, program id, account,
-- nonce and expiry slot, then the action's tag and its 40-byte body, and nothing between them.
pub canonical_preimage-fields :
    (i : AuthorizationIntent)
    → IsIntent i
    → canonical_preimage i ≡ context_fields i ++ (tag i.action ∷ action_body i.action)
unfolding canonical_preimage
canonical_preimage-fields i h =
    ap (write_body i.action) (
      write_next _ (context_fields i) (tag i.action ∷ []) 131 41 40
        (write_context-context_fields i h) (omega (arith, length-context_fields i h)) (omega arith))
    ∙ write_body-action_body i.action (context_fields i ++ tag i.action ∷ []) h.action_range
        (omega (arith, length-append {0}, length-context_fields i h))
    ∙ append_assoc (context_fields i) (tag i.action ∷ []) (action_body i.action)
