-- ===== src/Program/Rotate/Effect.antt =====
-- What a rotation of the Ed25519 key requires and leaves in the account.
use solana_hybrid_pq_account.Base.{
  ◌≡◌, ◌≢◌, true, false, [], ◌∷◌, Bytes, length, arith, take, drop, take-All, inl, inr, ◌==ᵇ◌,
  ==ᵇ_iff,
}
use solana_hybrid_pq_account.Base.Words.{IsU8, IsBytes}
use solana_hybrid_pq_account.Core.Error.{ok, Result-cases}
use solana_hybrid_pq_account.Core.Intent.{IsKey, rotate_ed25519_key}
use solana_hybrid_pq_account.Core.Wire.{ExecuteIntentWire, decode}
use solana_hybrid_pq_account.Core.Wire.Decoding.{decode-IsAction}
use solana_hybrid_pq_account.Core.Account.{try_from_bytes, owner_ed25519}
use solana_hybrid_pq_account.Core.Account.Slices.{from_slice-view}
use solana_hybrid_pq_account.Program.Runtime.{Runtime, World, AccountInfo, set_content}
use solana_hybrid_pq_account.Program.Authorize.{
  Authorization, authorize, split_wire_and_falcon, split_wire_and_falcon_lem,
}
use solana_hybrid_pq_account.Program.Authorize.Sound.{authorize-Authorized}
use solana_hybrid_pq_account.Program.SocialRecovery.{clear_pending_after_ed25519_owner_change}
use solana_hybrid_pq_account.Program.SocialRecovery.Owner.{OwnerRotated, rotated, owner_rotated}
use solana_hybrid_pq_account.Program.Rotate.{process_rotate_ed25519, apply_ed25519_rotation}

module _ (rt : Runtime) (program_id : Bytes) (hybrid config sysvar : AccountInfo) where
  ed25519_steps :
      (payload key : Bytes) (wire : ExecuteIntentWire) (w w' : World) (auth : Authorization)
      → decode (take 49 payload) ≡ ok wire
      → wire.action ≡ rotate_ed25519_key key
      → authorize rt program_id hybrid sysvar wire (drop 49 payload) w ≡ ok auth
      → length (w hybrid.key).content ≡ 1120
      → split_wire_and_falcon payload ≡ ok (take 49 payload, drop 49 payload)
      → process_rotate_ed25519 rt program_id (hybrid ∷ config ∷ sysvar ∷ []) payload w ≡ ok w'
      → (hybrid.is_writable ≡ true)
        × ((key ==ᵇ owner_ed25519 (w hybrid.key).content) ≡ false)
        × (clear_pending_after_ed25519_owner_change rt program_id hybrid.key config
              (set_content hybrid.key (rotated key auth.next_nonce (w hybrid.key).content) w)
            ≡ ok w')
  unfolding process_rotate_ed25519 apply_ed25519_rotation try_from_bytes
  ed25519_steps payload key wire w w' auth d act ha size cut h =
      ground (arith, (from_slice-view (w hybrid.key).content size).0, size)

  -- A rotation of the Ed25519 key that succeeds was authorized for exactly that key, which is not
  -- the current one. The key is then the owner and the nonce has advanced by one; every other
  -- field, the Falcon key included, is kept, no social recovery is pending in a config account
  -- that was in use, and no third account changes.
  pub process_rotate_ed25519-OwnerRotated :
      (payload key : Bytes) (wire : ExecuteIntentWire) (w w' : World)
      → IsBytes payload
      → decode (take 49 payload) ≡ ok wire
      → wire.action ≡ rotate_ed25519_key key
      → process_rotate_ed25519 rt program_id (hybrid ∷ config ∷ sysvar ∷ []) payload w ≡ ok w'
      → (key ≢ owner_ed25519 (w hybrid.key).content)
        × OwnerRotated rt program_id hybrid config sysvar wire (drop 49 payload) key w w'
  unfolding process_rotate_ed25519
  process_rotate_ed25519-OwnerRotated payload key wire w w' bytes d act h =
      let cut = split_wire_and_falcon_lem payload (ground arith) in
      let key_range : IsKey key =
        ground (arith, decode-IsAction (take 49 payload) wire (take-All IsU8 49 payload bytes) d) in
      elim (Result-cases (authorize rt program_id hybrid sysvar wire (drop 49 payload) w)) [
        | inr (x, refused) ↦ absurd (ground arith)
        | inl (auth, ha) ↦
            let a =
              authorize-Authorized rt program_id hybrid sysvar wire (drop 49 payload) w auth ha in
            let (wr, ne, st) = ed25519_steps payload key wire w w' auth d act ha a.size cut h in
            (
              λ q. ground (arith, ne, ==ᵇ_iff key (owner_ed25519 (w hybrid.key).content)),
              owner_rotated rt program_id hybrid config sysvar wire (drop 49 payload) key w w'
                  key_range.0 auth ha st,
            )
      ]
