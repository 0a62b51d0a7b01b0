-- ===== src/Program/SocialRecovery/Owner.antt =====
-- What both rotations of the owner's Ed25519 key leave in the two accounts.
use solana_hybrid_pq_account.Base.{
  ℕ, ◌+◌, ◌≡◌, ◌≢◌, ◌⊎◌, sym, ap, ◌∙◌, true, false, Bytes, length, arith, inl, inr, Bool-cases,
}
use solana_hybrid_pq_account.Base.Words.{IsU64, from_le_bytes}
use solana_hybrid_pq_account.Core.Error.{ok, Result-cases}
use solana_hybrid_pq_account.Core.Wire.{ExecuteIntentWire}
use solana_hybrid_pq_account.Core.Account.{set_nonce, nonce, set_owner_ed25519, owner_ed25519}
use solana_hybrid_pq_account.Core.Account.Field.{Field, rank, field}
use solana_hybrid_pq_account.Core.Account.Setters.{
  field-set_nonce, field-set_owner_ed25519, length-set_nonce, nonce-set_nonce, nonce-field,
  owner_ed25519-set_owner_ed25519, length-set_owner_ed25519,
}
use solana_hybrid_pq_account.Core.Recovery
use solana_hybrid_pq_account.Core.Recovery.{has_pending, clear_pending}
use solana_hybrid_pq_account.Core.Recovery.Setters.{clear_pending_lem}
use solana_hybrid_pq_account.Program.Runtime.{
  Runtime, World, AccountInfo, set_content, data_is_empty,
}
use solana_hybrid_pq_account.Program.Runtime.Frames.{set_content_self, set_content_ne}
use solana_hybrid_pq_account.Program.Authorize.{Authorization, authorize}
use solana_hybrid_pq_account.Program.Authorize.Sound.{Authorized, authorize-Authorized}
use solana_hybrid_pq_account.Program.SocialRecovery.{
  clear_pending_after_ed25519_owner_change, verify_recovery_config_pda,
}

-- The account after the two writes of a rotation.
module _ (key : Bytes) (n : ℕ) (a : Bytes) where
  abbrev pub rotated : Bytes
  rotated = set_owner_ed25519 key (set_nonce n a)

  pub rotated_lem :
      length a ≡ 1120
      → length key ≡ 32
      → IsU64 n
      → (owner_ed25519 rotated ≡ key)
        × (nonce rotated ≡ n)
        × ((f : Field) → rank f ≢ 5 → rank f ≢ 7 → field f rotated ≡ field f a)
  rotated_lem size key_size n_fits =
      let b = set_nonce n a in
      (
        owner_ed25519-set_owner_ed25519 b (length-set_nonce n a ∙ size) key key_size,
        nonce-field rotated
            ∙ ap from_le_bytes (field-set_owner_ed25519 Field.nonce b key key_size (omega arith))
            ∙ sym (nonce-field b)
            ∙ nonce-set_nonce a size n n_fits,
        λ f n₅ n₇. field-set_owner_ed25519 f b key key_size n₅ ∙ field-set_nonce f a n n₇,
      )

module _ (rt : Runtime) (program_id : Bytes) (hybrid config : AccountInfo) where
  -- After an owner change the config account is left alone if it is empty; else it is a config of
  -- this program, and what was pending is cleared.
  pub clear_pending_after_lem :
      (w w' : World)
      → clear_pending_after_ed25519_owner_change rt program_id hybrid.key config w ≡ ok w'
      → ((data_is_empty (w config.key) ≡ true) × (w' ≡ w))
        ⊎ ((length (w config.key).content ≡ 128)
            × (w' ≡ set_content config.key (clear_pending (w config.key).content) w))
  unfolding clear_pending_after_ed25519_owner_change Recovery.try_from_bytes
  clear_pending_after_lem w w' h =
      elim (Result-cases (verify_recovery_config_pda rt program_id hybrid.key config.key)) [
        | inr (x, refused) ↦ absurd (ground arith)
        | inl (bump, e) ↦ elim (Bool-cases (data_is_empty (w config.key))) [
          | inl empty ↦ inl (ground arith)
          | inr used ↦ inr (ground arith)
        ]
      ]

  module _ (sysvar : AccountInfo) where
    -- An authorized change of the owner.
    pub record OwnerRotated (wire : ExecuteIntentWire) (falcon_sig key : Bytes) (w w' : World)
        : Type 0 where
      pub auth : Authorization
      pub authorized : Authorized rt program_id hybrid sysvar wire falcon_sig w auth
      pub new_owner : owner_ed25519 (w' hybrid.key).content ≡ key
      pub next_nonce : nonce (w' hybrid.key).content ≡ nonce (w hybrid.key).content + 1
      pub other_fields :
          (f : Field)
          → rank f ≢ 5
          → rank f ≢ 7
          → field f (w' hybrid.key).content ≡ field f (w hybrid.key).content
      pub none_pending :
          data_is_empty (w config.key) ≡ false → has_pending (w' config.key).content ≡ false
      pub others : (k : Bytes) → k ≢ hybrid.key → k ≢ config.key → w' k ≡ w k

    module _ (wire : ExecuteIntentWire) (falcon_sig key : Bytes) (w w' : World)
        (key_size : length key ≡ 32) (auth : Authorization)
        (ha : authorize rt program_id hybrid sysvar wire falcon_sig w ≡ ok auth)
        (h : clear_pending_after_ed25519_owner_change rt program_id hybrid.key config
            (set_content hybrid.key (rotated key auth.next_nonce (w hybrid.key).content) w)
          ≡ ok w') where
      abbrev new : Bytes
      new = rotated key auth.next_nonce (w hybrid.key).content

      abbrev w₁ : World
      w₁ = set_content hybrid.key new w

      a : Authorized rt program_id hybrid sysvar wire falcon_sig w auth
      a = authorize-Authorized rt program_id hybrid sysvar wire falcon_sig w auth ha

      new_size : length new ≡ 1120
      new_size =
          length-set_owner_ed25519 key (set_nonce auth.next_nonce (w hybrid.key).content)
          ∙ length-set_nonce auth.next_nonce (w hybrid.key).content
          ∙ a.size

      content₁ : (w₁ hybrid.key).content ≡ new
      content₁ = (set_content_self hybrid.key w new).0

      -- From the data of both accounts after the clearing.
      from_contents :
          (w' hybrid.key).content ≡ new
          → (data_is_empty (w config.key) ≡ false → has_pending (w' config.key).content ≡ false)
          → ((k : Bytes) → k ≢ hybrid.key → k ≢ config.key → w' k ≡ w k)
          → OwnerRotated wire falcon_sig key w w'
      from_contents e np frame =
          let (o, n, f) =
            rotated_lem key auth.next_nonce (w hybrid.key).content a.size key_size a.next_fits in
          record {
            auth = auth;
            authorized = a;
            new_owner = ap owner_ed25519 e ∙ o;
            next_nonce = ap nonce e ∙ n ∙ a.next;
            other_fields = λ g n₅ n₇. ap (field g) e ∙ f g n₅ n₇;
            none_pending = np;
            others = frame;
          }

      pub owner_rotated : OwnerRotated wire falcon_sig key w w'
      owner_rotated = elim (clear_pending_after_lem w₁ w' h) [
        | inl (empty, same) ↦
            let apart : config.key ≢ hybrid.key = λ q.
              unfold data_is_empty in
              absurd (ground (arith, ap (λ k. length (w₁ k).content) q, content₁, new_size)) in
            let keep = set_content_ne hybrid.key w new config.key apart in
            from_contents (ap (λ v. (v hybrid.key).content) same ∙ content₁)
              (λ used. absurd (ground (arith, ap data_is_empty keep)))
              (λ k p q. ap (λ v. v k) same ∙ set_content_ne hybrid.key w new k p)
        | inr (size, out) ↦
            let apart : config.key ≢ hybrid.key = λ q. absurd (
              omega
                (arith, ap (λ k. length (w₁ k).content) q, ap length content₁, new_size, size)) in
            let cleared = clear_pending (w₁ config.key).content in
            from_contents
              (ap (λ v. (v hybrid.key).content) out
                ∙ ap (λ x. x.content)
                    (set_content_ne config.key w₁ cleared hybrid.key (λ q. apart (sym q)))
                ∙ content₁)
              (λ used.
                ap (λ v. has_pending (v config.key).content) out
                ∙ ap has_pending (set_content_self config.key w₁ cleared).0
                ∙ (clear_pending_lem (w₁ config.key).content size).0)
              (λ k p q.
                ap (λ v. v k) out
                ∙ set_content_ne config.key w₁ cleared k q
                ∙ set_content_ne hybrid.key w new k p)
      ]
