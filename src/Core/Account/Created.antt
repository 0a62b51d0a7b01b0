-- ===== src/Core/Account/Created.antt =====
-- What `initialize` leaves in the buffer, field by field.
use mathlib.Core.Path.{subst}
use native.Mathlib.Decide.{ℕ_discrete}
use solana_hybrid_pq_account.Base.{ℕ, ◌≡◌, ◌≢◌, refl, sym, ◌∙◌, Bytes, [], ◌∷◌, arith, length}
use solana_hybrid_pq_account.Base.Buffer.{length-write}
use solana_hybrid_pq_account.Base.Layout.{zeros, length-zeros, slice-zeros}
use solana_hybrid_pq_account.Base.Words.{to_le_bytes, length-to_le_bytes}
use solana_hybrid_pq_account.Core.Error.{ok}
use solana_hybrid_pq_account.Core.Policy.{AuthorizationPolicy, as_u8}
use solana_hybrid_pq_account.Core.Account.{
  set_version, set_bump, set_account_index, set_policy, set_owner_ed25519,
  set_falcon_public_key_hash, set_nonce, set_prepared_falcon_public_key, initialize,
  initialize_without_falcon_key,
}
use solana_hybrid_pq_account.Core.Account.Field.{
  Field, rank, size, field, put, field-put_self, field-put_ne,
}

rank-injective : (f g : Field) → rank f ≡ rank g → f ≡ g
rank-injective Field.version g e = grind arith
rank-injective _ g e = grind arith

module _ (b index : ℕ) (owner hash prepared : Bytes) (p : AuthorizationPolicy) where
  -- The bytes of each field of a fresh account.
  abbrev pub fresh : Field → Bytes
  fresh Field.version = 1 ∷ []
  fresh Field.bump = b ∷ []
  fresh Field.policy = as_u8 p ∷ []
  fresh Field.flags = zeros 1
  fresh Field.account_index = to_le_bytes 4 index
  fresh Field.owner_ed25519 = owner
  fresh Field.falcon_public_key_hash = hash
  fresh Field.nonce = to_le_bytes 8 0
  fresh Field.falcon_required_above = zeros 8
  fresh Field.reserved = zeros 8
  fresh Field.prepared_falcon_public_key = prepared

  module _ (owner_size : length owner ≡ 32) (hash_size : length hash ≡ 32)
      (prepared_size : length prepared ≡ 1024) where
    fresh_size : (f : Field) → length (fresh f) ≡ size f
    fresh_size Field.version = refl
    fresh_size Field.owner_ed25519 = owner_size
    fresh_size Field.falcon_public_key_hash = hash_size
    fresh_size Field.prepared_falcon_public_key = prepared_size
    fresh_size Field.account_index = length-to_le_bytes 4 index
    fresh_size Field.nonce = length-to_le_bytes 8 0
    fresh_size Field.flags = length-zeros 1
    fresh_size Field.falcon_required_above = length-zeros 8
    fresh_size Field.reserved = length-zeros 8
    fresh_size _ = refl

    -- Writing the fresh bytes of `g` leaves field `f` fresh, if it was or is `g`.
    put-fresh :
        (f g : Field) (a : Bytes)
        → length a ≡ 1120
        → (rank f ≢ rank g → field f a ≡ fresh f)
        → field f (put g (fresh g) a) ≡ fresh f
    put-fresh f g a ha h = elim (ℕ_discrete (rank f) (rank g)) [
      | yes e ↦
          subst (λ k. field k (put g (fresh g) a) ≡ fresh k) (sym (rank-injective f g e))
            (field-put_self g (fresh g) a (fresh_size g) ha)
      | no ne ↦ field-put_ne f g (fresh g) a (fresh_size g) ne ∙ h ne
    ]

    -- The fields that no setter of `initialize` writes are zero.
    fresh-zeros :
        (f : Field)
        → rank f ≢ 0
        → rank f ≢ 1
        → rank f ≢ 2
        → rank f ≢ 4
        → rank f ≢ 5
        → rank f ≢ 6
        → rank f ≢ 7
        → rank f ≢ 10
        → field f (zeros 1120) ≡ fresh f
    unfolding field
    fresh-zeros Field.flags _ _ _ _ _ _ _ _ = slice-zeros 3 1 1120 (omega arith)
    fresh-zeros Field.falcon_required_above _ _ _ _ _ _ _ _ = slice-zeros 80 8 1120 (omega arith)
    fresh-zeros Field.reserved _ _ _ _ _ _ _ _ = slice-zeros 88 8 1120 (omega arith)
    fresh-zeros f n₀ n₁ n₂ n₄ n₅ n₆ n₇ n₁₀ = absurd (omega arith)

    -- On a buffer of 1120 bytes, whatever they were, `initialize` succeeds and every field of the
    -- layout holds exactly the value that it was given, or zero.
    pub initialize-fresh :
        (buffer : Bytes)
        → length buffer ≡ 1120
        → (a : Bytes) × (initialize buffer b index owner hash prepared p ≡ ok a)
          × (length a ≡ 1120)
          × ((f : Field) → field f a ≡ fresh f)
    unfolding initialize initialize_without_falcon_key set_version set_bump set_account_index
        set_policy set_owner_ed25519 set_falcon_public_key_hash set_nonce
        set_prepared_falcon_public_key put
    initialize-fresh buffer fits =
        let a₀ : Bytes = zeros 1120 in
        let a₁ = put Field.version (fresh Field.version) a₀ in
        let a₂ = put Field.bump (fresh Field.bump) a₁ in
        let a₃ = put Field.account_index (fresh Field.account_index) a₂ in
        let a₄ = put Field.policy (fresh Field.policy) a₃ in
        let a₅ = put Field.owner_ed25519 owner a₄ in
        let a₆ = put Field.falcon_public_key_hash hash a₅ in
        let a₇ = put Field.nonce (fresh Field.nonce) a₆ in
        let l₀ : length a₀ ≡ 1120 = length-zeros 1120 in
        let l₁ : length a₁ ≡ 1120 = length-write 0 _ a₀ ∙ l₀ in
        let l₂ : length a₂ ≡ 1120 = length-write 1 _ a₁ ∙ l₁ in
        let l₃ : length a₃ ≡ 1120 = length-write 4 _ a₂ ∙ l₂ in
        let l₄ : length a₄ ≡ 1120 = length-write 2 _ a₃ ∙ l₃ in
        let l₅ : length a₅ ≡ 1120 = length-write 8 _ a₄ ∙ l₄ in
        let l₆ : length a₆ ≡ 1120 = length-write 40 _ a₅ ∙ l₅ in
        let l₇ : length a₇ ≡ 1120 = length-write 72 _ a₆ ∙ l₆ in
        (
          put Field.prepared_falcon_public_key prepared a₇,
          rw fits,
          length-write 96 _ a₇ ∙ l₇,
          λ f. put-fresh f Field.prepared_falcon_public_key a₇ l₇ λ n₁₀.
              put-fresh f Field.nonce a₆ l₆ λ n₇.
                put-fresh f Field.falcon_public_key_hash a₅ l₅ λ n₆.
                  put-fresh f Field.owner_ed25519 a₄ l₄ λ n₅. put-fresh f Field.policy a₃ l₃ λ n₂.
                    put-fresh f Field.account_index a₂ l₂ λ n₄. put-fresh f Field.bump a₁ l₁ λ n₁.
                      put-fresh f Field.version a₀ l₀ λ n₀. fresh-zeros f n₀ n₁ n₂ n₄ n₅ n₆ n₇ n₁₀,
        )
