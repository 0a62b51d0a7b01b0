-- ===== src/Program/SocialRecovery/Cancel.antt =====
-- What the owner's cancellation requires and leaves.
use solana_hybrid_pq_account.Base.{
  ℕ, ◌≡◌, ◌≢◌, refl, ap, true, some, [], ◌∷◌, Bytes, length, arith, inl, inr, Option-cases, take,
  drop,
}
use solana_hybrid_pq_account.Core.Error.{ok, Result-cases}
use solana_hybrid_pq_account.Core.Wire.{ExecuteIntentWire, decode}
use solana_hybrid_pq_account.Core.Intent.{Action, cancel_social_recovery}
use solana_hybrid_pq_account.Core.Account.Slices.{from_slice-view}
use solana_hybrid_pq_account.Core.Recovery
use solana_hybrid_pq_account.Core.Recovery.{
  social_recover_preimage, guardian_ed25519, guardian_from_slice, has_pending, clear_pending,
  set_guardian_ed25519, set_delay_slots, delay_slots, pending_new_ed25519, pending_ready_slot,
  set_pending_new_ed25519, set_pending_ready_slot,
}
use solana_hybrid_pq_account.Core.Recovery.Setters.{clear_pending_lem}
use solana_hybrid_pq_account.Program.Runtime.{Runtime, World, AccountInfo, set_content}
use solana_hybrid_pq_account.Program.Authorize.{
  Authorization, authorize, split_wire_and_falcon, split_wire_and_falcon_lem,
}
use solana_hybrid_pq_account.Program.Authorize.Sound.{authorize-Authorized}
use solana_hybrid_pq_account.Program.SocialRecovery.{
  store_nonce, verify_recovery_config_pda, as_cancel_social_recovery,
  process_cancel_social_recovery,
}
use solana_hybrid_pq_account.Program.SocialRecovery.Reconfigure.{Reconfigured, reconfigure}

is_cancel :
    (a : Action) {u : Unit {0}} → as_cancel_social_recovery a ≡ some u → a ≡ cancel_social_recovery
is_cancel cancel_social_recovery h = refl
is_cancel a h = cc

module _ (rt : Runtime) (program_id : Bytes) (hybrid config sysvar : AccountInfo) where
  cancel_steps :
      (payload : Bytes) (wire : ExecuteIntentWire) (w w' : World) (bump : ℕ) (auth : Authorization)
      → decode (take 49 payload) ≡ ok wire
      → verify_recovery_config_pda rt program_id hybrid.key config.key ≡ ok bump
      → authorize rt program_id hybrid sysvar wire (drop 49 payload) w ≡ ok auth
      → length (w hybrid.key).content ≡ 1120
      → as_cancel_social_recovery wire.action ≡ some tt
      → split_wire_and_falcon payload ≡ ok (take 49 payload, drop 49 payload)
      → process_cancel_social_recovery rt program_id (hybrid ∷ config ∷ sysvar ∷ []) payload w
        ≡ ok w'
      → (length (w config.key).content ≡ 128)
        × (has_pending (w config.key).content ≡ true)
        × (store_nonce hybrid auth.next_nonce
              (set_content config.key (clear_pending (w config.key).content) w)
            ≡ ok w')
  unfolding process_cancel_social_recovery Recovery.try_from_bytes
  cancel_steps payload wire w w' bump auth d e ha size act sp h =
      ground (arith, (from_slice-view (w hybrid.key).content size).8)

  -- A cancellation that succeeds was authorized for exactly that action; it found a pending
  -- proposal, and it clears it in the data of the config, changes the data of the hybrid account
  -- in the nonce alone, and leaves every third account alone.
  pub process_cancel_social_recovery-Reconfigured :
      (payload : Bytes) (wire : ExecuteIntentWire) (w w' : World)
      → decode (take 49 payload) ≡ ok wire
      → process_cancel_social_recovery rt program_id (hybrid ∷ config ∷ sysvar ∷ []) payload w
        ≡ ok w'
      → (wire.action ≡ cancel_social_recovery)
        × (has_pending (w config.key).content ≡ true)
        × Reconfigured rt program_id hybrid config sysvar wire
            (drop 49 payload)
            (clear_pending (w config.key).content)
            w
            w'
  unfolding process_cancel_social_recovery
  process_cancel_social_recovery-Reconfigured payload wire w w' d h =
      let sp = split_wire_and_falcon_lem payload (ground arith) in
      elim (Result-cases (verify_recovery_config_pda rt program_id hybrid.key config.key)) [
        | inr (x, refused) ↦ absurd (ground arith)
        | inl (bump, e) ↦ elim (Option-cases (as_cancel_social_recovery wire.action)) [
          | inl other ↦ absurd (ground arith)
          | inr (u, act) ↦
              elim (Result-cases (authorize rt program_id hybrid sysvar wire (drop 49 payload) w)) [
                | inr (x, refused) ↦ absurd (ground arith)
                | inl (auth, ha) ↦
                    let a =
                      authorize-Authorized rt program_id hybrid sysvar wire (drop 49 payload) w auth
                        ha in
                    let (size, pe, st) =
                      cancel_steps payload wire w w' bump auth d e ha a.size act sp h in
                    let apart : hybrid.key ≢ config.key =
                      λ q. absurd (omega (arith, size, a.size, ap (λ k. length (w k).content) q)) in
                    (
                      is_cancel wire.action act,
                      pe,
                      reconfigure rt program_id hybrid config sysvar wire (drop 49 payload)
                          (clear_pending (w config.key).content) w w' auth ha apart
                          (clear_pending_lem (w config.key).content size).0 st,
                    )
              ]
        ]
      ]
