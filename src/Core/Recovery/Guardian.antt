-- ===== src/Core/Recovery/Guardian.antt =====
-- The guardian's preimage against the concatenation of its fields.
use solana_hybrid_pq_account.Base.{
  ℕ, ◌≡◌, ◌≢◌, refl, sym, ap, [], ◌∷◌, ◌++◌, ◌∙◌, arith, Bytes, length, length-append,
}
use solana_hybrid_pq_account.Base.Buffer.{slice, byte_at}
use solana_hybrid_pq_account.Base.Layout.{zeros-zero, write_next, append-cancel_right}
use solana_hybrid_pq_account.Base.Words.{
  IsU64, to_le_bytes, from_le_bytes, length-to_le_bytes, from_le_bytes-to_le_bytes,
}
use solana_hybrid_pq_account.Core.Intent.{IsKey, AuthorizationIntent, IsIntent}
use solana_hybrid_pq_account.Core.Canonical.{domain_tag, domain_tag_len, canonical_preimage}
use solana_hybrid_pq_account.Core.Canonical.Fields.{context_fields, canonical_preimage-fields}
use solana_hybrid_pq_account.Core.Recovery.{
  social_recover_tag, social_recover_tag_len, social_recover_preimage,
}
use mathlib.Core.List.{append-nil}

abbrev guardian_prefix : Bytes
guardian_prefix = domain_tag_len ∷ domain_tag ++ social_recover_tag_len ∷ [] ++ social_recover_tag

module _ (chain program account key : Bytes) (nonce : ℕ) where
  module _ (hc : length chain ≡ 32) (hp : length program ≡ 32) (ha : length account ≡ 32)
      (hk : length key ≡ 32) where
    -- The preimage is the domain tag, the length-prefixed "SOCIAL_RECOVER" and the five values.
    pub social_recover_preimage-fields :
        social_recover_preimage chain program account key nonce
        ≡ guardian_prefix ++ chain ++ program ++ account ++ key ++ to_le_bytes 8 nonce
    unfolding social_recover_preimage
    social_recover_preimage-fields =
        let p₁ : Bytes = domain_tag_len ∷ [] in
        let p₂ : Bytes = p₁ ++ domain_tag in
        let p₃ : Bytes = p₂ ++ social_recover_tag_len ∷ [] in
        let p₄ : Bytes = p₃ ++ social_recover_tag in
        let p₅ : Bytes = p₄ ++ chain in
        let p₆ : Bytes = p₅ ++ program in
        let p₇ : Bytes = p₆ ++ account in
        let p₈ : Bytes = p₇ ++ key in
        let e₁ = write_next _ [] p₁ 0 169 168 refl (omega arith) (omega arith) in
        let e₂ = write_next _ p₁ domain_tag 1 168 151 e₁ (omega arith) (omega arith) in
        let e₃ =
          write_next _ p₂ (social_recover_tag_len ∷ []) 18 151 150 e₂ (omega arith) (omega arith) in
        let e₄ = write_next _ p₃ social_recover_tag 19 150 136 e₃ (omega arith) (omega arith) in
        let e₅ = write_next _ p₄ chain 33 136 104 e₄ (omega arith) (omega arith) in
        let l₅ : length p₅ ≡ 65 = omega (arith, length-append p₄ chain) in
        let e₆ = write_next _ p₅ program 65 104 72 e₅ (omega arith) (omega arith) in
        let l₆ : length p₆ ≡ 97 = omega (arith, length-append p₅ program) in
        let e₇ = write_next _ p₆ account 97 72 40 e₆ (omega arith) (omega arith) in
        let l₇ : length p₇ ≡ 129 = omega (arith, length-append p₆ account) in
        let e₈ = write_next _ p₇ key 129 40 8 e₇ (omega arith) (omega arith) in
        let l₈ : length p₈ ≡ 161 = omega (arith, length-append p₇ key) in
        write_next _ p₈ (to_le_bytes 8 nonce) 161 8 0 e₈ (omega arith)
          (omega (arith, length-to_le_bytes))
        ∙ ap (λ l. p₈ ++ to_le_bytes 8 nonce ++ l) zeros-zero
        ∙ append-nil (p₈ ++ to_le_bytes 8 nonce)

module _ (chain program account key : Bytes) (nonce : ℕ) where
  module _ (chain' program' account' key' : Bytes) (nonce' : ℕ) where
    -- A guardian's signature for one cluster, program, account, proposed key and nonce is for no
    -- other: the five values can be read off the preimage.
    pub social_recover_preimage-injective :
        IsKey chain × IsKey program × IsKey account × IsKey key × IsU64 nonce
        → IsKey chain' × IsKey program' × IsKey account' × IsKey key' × IsU64 nonce'
        → social_recover_preimage chain program account key nonce
          ≡ social_recover_preimage chain' program' account' key' nonce'
        → (chain ≡ chain')
          × (program ≡ program')
          × (account ≡ account')
          × (key ≡ key')
          × (nonce ≡ nonce')
    social_recover_preimage-injective (hc, hp, ha, hk, hn) (hc', hp', ha', hk', hn') e =
        let flat =
          sym (social_recover_preimage-fields chain program account key nonce hc.0 hp.0 ha.0 hk.0)
          ∙ e
          ∙ social_recover_preimage-fields chain' program' account' key' nonce' hc'.0 hp'.0 ha'.0
              hk'.0 in
        let c₁ =
          append-cancel_right _ _ (to_le_bytes 8 nonce) (to_le_bytes 8 nonce')
            (length-to_le_bytes 8 nonce ∙ sym (length-to_le_bytes 8 nonce')) flat in
        let c₂ = append-cancel_right _ _ key key' (hk.0 ∙ sym hk'.0) c₁.0 in
        let c₃ = append-cancel_right _ _ account account' (ha.0 ∙ sym ha'.0) c₂.0 in
        let c₄ = append-cancel_right _ _ program program' (hp.0 ∙ sym hp'.0) c₃.0 in
        let c₅ =
          append-cancel_right guardian_prefix guardian_prefix chain chain' (hc.0 ∙ sym hc'.0)
            c₄.0 in
        (
          c₅.1,
          c₄.1,
          c₃.1,
          c₂.1,
          sym (from_le_bytes-to_le_bytes 8 nonce hn)
              ∙ ap from_le_bytes c₁.1
              ∙ from_le_bytes-to_le_bytes 8 nonce' hn',
        )

  -- Domain separation: a guardian's preimage differs from every intent's preimage already in the
  -- first 19 bytes, if the intent's version is not 14; so no signature serves for both.
  pub guardian_separation :
      (i : AuthorizationIntent)
      → IsIntent i
      → i.version ≢ 14
      → IsKey chain × IsKey program × IsKey account × IsKey key
      → slice 0 19 (social_recover_preimage chain program account key nonce)
        ≢ slice 0 19 (canonical_preimage i)
  unfolding slice context_fields byte_at
  guardian_separation i hi hv (hc, hp, ha, hk) e =
      let l =
        ap (slice 0 19)
          (social_recover_preimage-fields chain program account key nonce hc.0 hp.0 ha.0 hk.0) in
      let r = ap (slice 0 19) (canonical_preimage-fields i hi) in
      hv (sym (ap (byte_at 18) (sym l ∙ e ∙ r)))
