-- ===== src/Core/Canonical/Injective.antt =====
-- Two intents with the same preimage are the same intent.
use solana_hybrid_pq_account.Base.{
  ℕ, ◌≡◌, refl, sym, ap, ap₂, [], ◌∷◌, ◌++◌, ◌∙◌, arith, Bytes, length, length-append,
}
use solana_hybrid_pq_account.Base.Layout.{zeros, append-cancel, append-cancel_right}
use solana_hybrid_pq_account.Base.Words.{
  IsU64, to_le_bytes, from_le_bytes, length-to_le_bytes, from_le_bytes-to_le_bytes,
}
use solana_hybrid_pq_account.Core.RecoveryOp.{RecoveryOp, enable, as_u8}
use solana_hybrid_pq_account.Core.Intent.{
  Action, transfer_sol, rotate_ed25519_key, rotate_falcon_key, transfer_spl, change_policy,
  recover_account, set_recovery_config, cancel_social_recovery, tag, IsAction, AuthorizationIntent,
  IsIntent,
}
use solana_hybrid_pq_account.Core.Canonical.{domain_tag, domain_tag_len, canonical_preimage}
use solana_hybrid_pq_account.Core.Canonical.Body.{action_body}
use solana_hybrid_pq_account.Core.Canonical.Fields.{
  context_fields, length-context_fields, canonical_preimage-fields,
}

to_le_bytes-injective : (m n : ℕ) → IsU64 m → IsU64 n → to_le_bytes 8 m ≡ to_le_bytes 8 n → m ≡ n
to_le_bytes-injective m n hm hn e =
    sym (from_le_bytes-to_le_bytes 8 m hm) ∙ ap from_le_bytes e ∙ from_le_bytes-to_le_bytes 8 n hn

as_u8-injective : (p q : RecoveryOp) → as_u8 p ≡ as_u8 q → p ≡ q
unfolding as_u8
as_u8-injective enable q e = ground arith
as_u8-injective _ q e = ground arith

pair-injective :
    (k l : Bytes) (m n : ℕ)
    → length k ≡ length l
    → IsU64 m
    → IsU64 n
    → k ++ to_le_bytes 8 m ≡ l ++ to_le_bytes 8 n
    → (k ≡ l) × (m ≡ n)
pair-injective k l m n h hm hn e =
    let (ek, ew) = append-cancel k l (to_le_bytes 8 m) (to_le_bytes 8 n) h e in
    (ek, to_le_bytes-injective m n hm hn ew)

same_size : (m n : ℕ) → length (to_le_bytes 8 m) ≡ length (to_le_bytes 8 n)
same_size m n = length-to_le_bytes 8 m ∙ sym (length-to_le_bytes 8 n)

cons-injective : (p q : ℕ) (u v : Bytes) → p ∷ u ≡ q ∷ v → (p ≡ q) × (u ≡ v)
cons-injective p q u v e = ground arith

-- The body determines the action among those with its tag.
action_body-injective :
    (a b : Action) → IsAction a → IsAction b → tag a ≡ tag b → action_body a ≡ action_body b → a ≡ b
unfolding tag action_body
action_body-injective (transfer_sol k m) (transfer_sol l n) ha hb t e =
    (let (ek, em) = pair-injective k l m n (omega arith) ha.1 hb.1 e in cc)
action_body-injective (rotate_ed25519_key k) (rotate_ed25519_key l) ha hb t e =
    ap rotate_ed25519_key (append-cancel k l _ _ (omega arith) e).0
action_body-injective (rotate_falcon_key k) (rotate_falcon_key l) ha hb t e =
    ap rotate_falcon_key (append-cancel k l _ _ (omega arith) e).0
action_body-injective (transfer_spl k m) (transfer_spl l n) ha hb t e =
    (let (ek, em) = pair-injective k l m n (omega arith) ha.1 hb.1 e in cc)
action_body-injective (change_policy p m) (change_policy q n) ha hb t e =
    let r = cons-injective p q _ _ e in
    let c =
      append-cancel (zeros 7 ++ to_le_bytes 8 m) (zeros 7 ++ to_le_bytes 8 n) _ _
        (simp (length-append, length-to_le_bytes)) r.1 in
    let d = append-cancel (zeros 7) (zeros 7) _ _ refl c.0 in
    ap₂ change_policy r.0 (to_le_bytes-injective m n ha.1 hb.1 d.1)
action_body-injective (recover_account p k) (recover_account q l) ha hb t e =
    let r = cons-injective (as_u8 p) (as_u8 q) _ _ e in
    let d = append-cancel (zeros 7) (zeros 7) _ _ refl r.1 in
    ap₂ recover_account (as_u8-injective p q r.0) d.1
action_body-injective (set_recovery_config k m) (set_recovery_config l n) ha hb t e =
    (let (ek, em) = pair-injective k l m n (omega arith) ha.1 hb.1 e in cc)
action_body-injective cancel_social_recovery cancel_social_recovery ha hb t e = refl
action_body-injective _ _ ha hb t e = absurd (omega arith)

module _ (i j : AuthorizationIntent) (hi : IsIntent i) (hj : IsIntent j) where
  context_fields-injective :
      context_fields i ≡ context_fields j
      → (i.version ≡ j.version)
        × (i.chain_domain ≡ j.chain_domain)
        × (i.program_id ≡ j.program_id)
        × (i.account ≡ j.account)
        × (i.nonce ≡ j.nonce)
        × (i.expiry_slot ≡ j.expiry_slot)
  unfolding context_fields
  context_fields-injective e =
      let c₁ =
        append-cancel_right _ _ (to_le_bytes 8 i.expiry_slot) (to_le_bytes 8 j.expiry_slot)
          (same_size i.expiry_slot j.expiry_slot) e in
      let c₂ =
        append-cancel_right _ _ (to_le_bytes 8 i.nonce) (to_le_bytes 8 j.nonce)
          (same_size i.nonce j.nonce) c₁.0 in
      let c₃ =
        append-cancel_right _ _ i.account j.account (hi.account_range.0 ∙ sym hj.account_range.0)
          c₂.0 in
      let c₄ =
        append-cancel_right _ _ i.program_id j.program_id
          (hi.program_id_range.0 ∙ sym hj.program_id_range.0) c₃.0 in
      let c₅ =
        append-cancel_right _ _ i.chain_domain j.chain_domain
          (hi.chain_domain_range.0 ∙ sym hj.chain_domain_range.0) c₄.0 in
      let c₆ =
        append-cancel_right (domain_tag_len ∷ domain_tag) (domain_tag_len ∷ domain_tag)
          (i.version ∷ []) (j.version ∷ []) refl c₅.0 in
      (
        (cons-injective i.version j.version [] [] c₆.1).0,
        c₅.1,
        c₄.1,
        c₃.1,
        to_le_bytes-injective i.nonce j.nonce hi.nonce_range hj.nonce_range c₂.1,
        to_le_bytes-injective i.expiry_slot j.expiry_slot hi.expiry_slot_range hj.expiry_slot_range
            c₁.1,
      )

  -- No two distinct intents have the same preimage: what is signed for one version, cluster,
  -- program, account, nonce, expiry and action is signed for no other.
  pub canonical_preimage-injective : canonical_preimage i ≡ canonical_preimage j → i ≡ j
  canonical_preimage-injective e =
      let parts =
        append-cancel (context_fields i) (context_fields j) (tag i.action ∷ action_body i.action)
          (tag j.action ∷ action_body j.action)
          (omega (arith, length-context_fields i hi, length-context_fields j hj))
          (sym (canonical_preimage-fields i hi) ∙ e ∙ canonical_preimage-fields j hj) in
      let (t, b) = cons-injective (tag i.action) (tag j.action) _ _ parts.1 in
      let a = action_body-injective i.action j.action hi.action_range hj.action_range t b in
      let (v, c, p, k, n, x) = context_fields-injective parts.0 in
      λ l. record {
        version = v l;
        chain_domain = c l;
        program_id = p l;
        account = k l;
        nonce = n l;
        expiry_slot = x l;
        action = a l;
      }
