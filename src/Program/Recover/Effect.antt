-- ===== src/Program/Recover/Effect.antt =====
-- What the recovery operations require and leave in the account.
use Prim.Native.Nat.{bit_and}
use mathlib.Core.Path.{subst}
use solana_hybrid_pq_account.Base.{
  ◌+◌, ◌≡◌, ◌≢◌, sym, ap, ◌∙◌, Bool, not, ◌==◌, true, false, [], ◌∷◌, Bytes, length, arith, take,
  drop, take-All, inl, inr, ◌==ᵇ◌, ==ᵇ_iff,
}
use solana_hybrid_pq_account.Base.Buffer.{byte_at}
use solana_hybrid_pq_account.Base.Layout.{byte_at-IsU8, zeros}
use solana_hybrid_pq_account.Base.Words.{IsU8, IsBytes, from_le_bytes}
use solana_hybrid_pq_account.Core.Error.{DualKeyError, ok, err, Result-cases}
use solana_hybrid_pq_account.Core.RecoveryOp.{RecoveryOp, enable, disable, rotate_ed25519}
use solana_hybrid_pq_account.Core.Intent.{IsKey, recover_account}
use solana_hybrid_pq_account.Core.Wire.{ExecuteIntentWire, decode}
use solana_hybrid_pq_account.Core.Wire.Decoding.{decode-IsAction}
use solana_hybrid_pq_account.Core.Account.{
  try_from_bytes, set_nonce, nonce, owner_ed25519, recovery_enabled, flags, set_recovery_enabled,
  flag_recovery_enabled,
}
use solana_hybrid_pq_account.Core.Account.Slices.{from_slice-view}
use solana_hybrid_pq_account.Core.Account.Field.{Field, rank, field}
use solana_hybrid_pq_account.Core.Account.Initialize.{set_recovery_enabled_lem}
use solana_hybrid_pq_account.Core.Account.Setters.{
  field-set_nonce, field-set_recovery_enabled, length-set_nonce, nonce-set_nonce, nonce-field,
  flags-field,
}
use solana_hybrid_pq_account.Program.Runtime.{Runtime, World, AccountInfo, set_content}
use solana_hybrid_pq_account.Program.Runtime.Frames.{set_content_self, set_content_ne}
use solana_hybrid_pq_account.Program.Authorize.{
  Authorization, authorize, split_wire_and_falcon, split_wire_and_falcon_lem,
}
use solana_hybrid_pq_account.Program.Authorize.Sound.{Authorized, authorize-Authorized}
use solana_hybrid_pq_account.Program.SocialRecovery.{clear_pending_after_ed25519_owner_change}
use solana_hybrid_pq_account.Program.SocialRecovery.Owner.{OwnerRotated, rotated, owner_rotated}
use solana_hybrid_pq_account.Core.Policy.{falcon}
use solana_hybrid_pq_account.Program.Authorize.{effective_requirement}
use solana_hybrid_pq_account.Program.Authorize.Sound.{SignedFalcon, Satisfies}
use solana_hybrid_pq_account.Program.Recover.{
  process, process_op, process_flag, process_rotate, apply_recovery, apply_op,
}

recovery_enabled-flags : (a b : Bytes) → flags a ≡ flags b → recovery_enabled a ≡ recovery_enabled b
unfolding recovery_enabled
recovery_enabled-flags a b e = ap (λ f. not (bit_and f flag_recovery_enabled == 0)) e

module _ (rt : Runtime) (program_id : Bytes) (hybrid config sysvar : AccountInfo) where
  rotate_steps :
      (payload key : Bytes) (wire : ExecuteIntentWire) (w w' : World) (auth : Authorization)
      → decode (take 49 payload) ≡ ok wire
      → wire.action ≡ recover_account rotate_ed25519 key
      → authorize rt program_id hybrid sysvar wire (drop 49 payload) w ≡ ok auth
      → length (w hybrid.key).content ≡ 1120
      → split_wire_and_falcon payload ≡ ok (take 49 payload, drop 49 payload)
      → process rt program_id (hybrid ∷ config ∷ sysvar ∷ []) payload w ≡ ok w'
      → (hybrid.is_writable ≡ true)
        × ((key ==ᵇ owner_ed25519 (w hybrid.key).content) ≡ false)
        × ((key ==ᵇ zeros 32) ≡ false)
        × (clear_pending_after_ed25519_owner_change rt program_id hybrid.key config
              (set_content hybrid.key (rotated key auth.next_nonce (w hybrid.key).content) w)
            ≡ ok w')
  unfolding process process_op process_rotate apply_recovery apply_op try_from_bytes
  rotate_steps payload key wire w w' auth d act ha size cut h =
      ground (arith, (from_slice-view (w hybrid.key).content size).0, size)

  -- The recovery rotation succeeds only on an account that has recovery enabled, with a valid
  -- signature by the stored Falcon key over the intent, whatever the policy says; the new key is
  -- neither zero nor the current one. The new key is then the owner and the
  -- nonce has advanced by one, every other field is kept, no social recovery is pending in a config
  -- account that was in use, and no third account changes.
  pub process-OwnerRotated :
      (payload key : Bytes) (wire : ExecuteIntentWire) (w w' : World)
      → IsBytes payload
      → decode (take 49 payload) ≡ ok wire
      → wire.action ≡ recover_account rotate_ed25519 key
      → process rt program_id (hybrid ∷ config ∷ sysvar ∷ []) payload w ≡ ok w'
      → (recovery_enabled (w hybrid.key).content ≡ true)
        × SignedFalcon rt program_id hybrid sysvar wire (drop 49 payload) w
        × (key ≢ owner_ed25519 (w hybrid.key).content)
        × (key ≢ zeros 32)
        × OwnerRotated rt program_id hybrid config sysvar wire (drop 49 payload) key w w'
  unfolding process process_op process_rotate effective_requirement
  process-OwnerRotated payload key wire w w' bytes d act h =
      let cut = split_wire_and_falcon_lem payload (ground arith) in
      let key_range : IsKey key =
        ground (arith, decode-IsAction (take 49 payload) wire (take-All IsU8 49 payload bytes) d) in
      elim (Result-cases (authorize rt program_id hybrid sysvar wire (drop 49 payload) w)) [
        | inr (x, refused) ↦ absurd (ground arith)
        | inl (auth, ha) ↦
            let a =
              authorize-Authorized rt program_id hybrid sysvar wire (drop 49 payload) w auth ha in
            let (wr, ne, nz, st) = rotate_steps payload key wire w w' auth d act ha a.size cut h in
            let (en, req) : (recovery_enabled (w hybrid.key).content ≡ true)
                × (a.requirement ≡ falcon) =
              ground (arith, a.effective) in
            (
              en,
              subst (Satisfies rt program_id hybrid sysvar wire (drop 49 payload) w) req
                  a.signatures,
              λ q. ground (arith, ne, ==ᵇ_iff key (owner_ed25519 (w hybrid.key).content)),
              λ q. ground (arith, nz, ==ᵇ_iff key (zeros 32)),
              owner_rotated rt program_id hybrid config sysvar wire (drop 49 payload) key w w'
                  key_range.0 auth ha st,
            )
      ]

  -- The two flag operations, and the value of the flag that each asks for.
  abbrev flag_op : Bool → RecoveryOp
  flag_op true = enable
  flag_op false = disable

  flag_steps :
      (payload key : Bytes) (b : Bool) (wire : ExecuteIntentWire) (w w' : World)
      (auth : Authorization)
      → decode (take 49 payload) ≡ ok wire
      → wire.action ≡ recover_account (flag_op b) key
      → authorize rt program_id hybrid sysvar wire (drop 49 payload) w ≡ ok auth
      → length (w hybrid.key).content ≡ 1120
      → split_wire_and_falcon payload ≡ ok (take 49 payload, drop 49 payload)
      → process rt program_id (hybrid ∷ sysvar ∷ []) payload w ≡ ok w'
      → (recovery_enabled (set_nonce auth.next_nonce (w hybrid.key).content) ≡ not b)
        × (w'
            ≡ set_content hybrid.key
                (set_recovery_enabled b (set_nonce auth.next_nonce (w hybrid.key).content))
                w)
  unfolding process process_op process_flag apply_recovery apply_op try_from_bytes
  flag_steps payload key true wire w w' auth d act ha size cut h = ground (arith, size)
  flag_steps payload key false wire w w' auth d act ha size cut h = ground (arith, size)

  process_refused :
      (payload key : Bytes) (b : Bool) (wire : ExecuteIntentWire) (w w' : World)
      → decode (take 49 payload) ≡ ok wire
      → wire.action ≡ recover_account (flag_op b) key
      → split_wire_and_falcon payload ≡ ok (take 49 payload, drop 49 payload)
      → (x : DualKeyError) → authorize rt program_id hybrid sysvar wire (drop 49 payload) w ≡ err x
      → ¬ (process rt program_id (hybrid ∷ sysvar ∷ []) payload w ≡ ok w')
  unfolding process process_op process_flag
  process_refused payload key true wire w w' d act cut x refused h = ground arith
  process_refused payload key false wire w w' d act cut x refused h = ground arith

  -- Enabling succeeds only under authorization and while recovery is disabled, and disabling while
  -- it is enabled. The flag is then as asked for and the nonce has advanced by one; every field but
  -- the flags' byte and the nonce is kept, and no other account changes.
  pub process-flag :
      (payload key : Bytes) (b : Bool) (wire : ExecuteIntentWire) (w w' : World)
      → IsBytes (w hybrid.key).content
      → decode (take 49 payload) ≡ ok wire
      → wire.action ≡ recover_account (flag_op b) key
      → process rt program_id (hybrid ∷ sysvar ∷ []) payload w ≡ ok w'
      → (auth : Authorization) × Authorized rt program_id hybrid sysvar wire
          (drop 49 payload)
          w
          auth
        × (recovery_enabled (w hybrid.key).content ≡ not b)
        × (recovery_enabled (w' hybrid.key).content ≡ b)
        × (nonce (w' hybrid.key).content ≡ nonce (w hybrid.key).content + 1)
        × ((f : Field)
            → rank f ≢ 3
            → rank f ≢ 7
            → field f (w' hybrid.key).content ≡ field f (w hybrid.key).content)
        × ((k : Bytes) → k ≢ hybrid.key → w' k ≡ w k)
  unfolding process process_op process_flag flags
  process-flag payload key b wire w w' bytes d act h =
      let cut = split_wire_and_falcon_lem payload (ground arith) in
      elim (Result-cases (authorize rt program_id hybrid sysvar wire (drop 49 payload) w)) [
        | inr (x, refused) ↦ absurd (process_refused payload key b wire w w' d act cut x refused h)
        | inl (auth, ha) ↦
            let a =
              authorize-Authorized rt program_id hybrid sysvar wire (drop 49 payload) w auth ha in
            let before = (w hybrid.key).content in
            let stepped = set_nonce auth.next_nonce before in
            let stepped_size : length stepped ≡ 1120 =
              length-set_nonce auth.next_nonce before ∙ a.size in
            let same_flags = field-set_nonce Field.flags before auth.next_nonce (omega arith) in
            let same : flags stepped ≡ flags before =
              flags-field stepped ∙ ap (byte_at 0) same_flags ∙ sym (flags-field before) in
            let (was, out) = flag_steps payload key b wire w w' auth d act ha a.size cut h in
            let new = set_recovery_enabled b stepped in
            let e = ap (λ v. (v hybrid.key).content) out ∙ (set_content_self hybrid.key w new).0 in
            let byte : IsU8 (flags stepped) = omega (arith, same, byte_at-IsU8 3 before bytes) in
            (
              auth,
              a,
              sym (recovery_enabled-flags stepped before same) ∙ was,
              ap recovery_enabled e ∙ (set_recovery_enabled_lem stepped stepped_size byte b).0,
              ap nonce e
                  ∙ nonce-field new
                  ∙ ap from_le_bytes
                      (field-set_recovery_enabled Field.nonce stepped b (omega arith))
                  ∙ sym (nonce-field stepped)
                  ∙ nonce-set_nonce before a.size auth.next_nonce a.next_fits
                  ∙ a.next,
              λ f n₃ n₇.
                  ap (field f) e
                  ∙ field-set_recovery_enabled f stepped b n₃
                  ∙ field-set_nonce f before auth.next_nonce n₇,
              λ k q. ap (λ v. v k) out ∙ set_content_ne hybrid.key w new k q,
            )
      ]
