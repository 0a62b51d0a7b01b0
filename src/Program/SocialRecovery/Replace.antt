-- ===== src/Program/SocialRecovery/Replace.antt =====
-- What a change of the guardian requires and leaves.
use solana_hybrid_pq_account.Base.{
  take-All, ℕ, ◌≤◌, ◌≡◌, ◌≢◌, ap, ◌∙◌, not, true, false, [], ◌∷◌, Bytes, length, arith, ==ᵇ_iff,
  inl, inr, ◌==ᵇ◌, take, drop,
}
use solana_hybrid_pq_account.Base.Buffer.{slice-write_after, write}
use solana_hybrid_pq_account.Base.Layout.{zeros}
use solana_hybrid_pq_account.Base.Words.{IsU8, IsU64, IsBytes, to_le_bytes, length-to_le_bytes}
use solana_hybrid_pq_account.Core.Error.{ok, Result-cases}
use solana_hybrid_pq_account.Core.Wire.{ExecuteIntentWire, decode}
use solana_hybrid_pq_account.Core.Wire.Decoding.{decode-IsAction}
use solana_hybrid_pq_account.Core.Intent.{IsKey, set_recovery_config}
use solana_hybrid_pq_account.Core.Recovery
use solana_hybrid_pq_account.Core.Recovery.{
  social_recover_preimage, guardian_ed25519, guardian_from_slice, has_pending, clear_pending,
  set_guardian_ed25519, set_delay_slots, delay_slots, pending_new_ed25519, pending_ready_slot,
  set_pending_new_ed25519, set_pending_ready_slot,
}
use solana_hybrid_pq_account.Program.Runtime.{
  Runtime, World, AccountInfo, set_content, data_is_empty,
}
use solana_hybrid_pq_account.Program.Authorize.{
  Authorization, authorize, split_wire_and_falcon, split_wire_and_falcon_lem,
}
use solana_hybrid_pq_account.Program.Authorize.Sound.{authorize-Authorized}
use solana_hybrid_pq_account.Program.SocialRecovery.{
  store_nonce, verify_recovery_config_pda, process_set_recovery_config, update_recovery_config,
}
use solana_hybrid_pq_account.Program.SocialRecovery.Reconfigure.{Reconfigured, reconfigure}

-- A new guardian and delay keep what is pending.
has_pending-set_guardian :
    (guardian : Bytes) (delay : ℕ) (c : Bytes)
    → length guardian ≡ 32
    → has_pending (set_delay_slots delay (set_guardian_ed25519 guardian c)) ≡ has_pending c
unfolding has_pending pending_new_ed25519 set_delay_slots set_guardian_ed25519
has_pending-set_guardian guardian delay c size =
    ap (λ k. not (k ==ᵇ zeros 32))
      (slice-write_after 44 32 36 (to_le_bytes 8 delay) (write 4 guardian c)
          (omega (arith, length-to_le_bytes 8 delay))
        ∙ slice-write_after 44 32 4 guardian c (omega arith))

module _ (rt : Runtime) (program_id : Bytes) (hybrid config sysvar : AccountInfo) where
  set_steps :
      (payer system_program : AccountInfo) (payload guardian : Bytes) (delay : ℕ)
      (wire : ExecuteIntentWire) (w w' : World) (bump : ℕ) (auth : Authorization)
      → decode (take 49 payload) ≡ ok wire
      → wire.action ≡ set_recovery_config guardian delay
      → data_is_empty (w config.key) ≡ false
      → verify_recovery_config_pda rt program_id hybrid.key config.key ≡ ok bump
      → authorize rt program_id hybrid sysvar wire (drop 49 payload) w ≡ ok auth
      → split_wire_and_falcon payload ≡ ok (take 49 payload, drop 49 payload)
      → process_set_recovery_config rt program_id
          (hybrid ∷ config ∷ payer ∷ system_program ∷ sysvar ∷ [])
          payload
          w
        ≡ ok w'
      → (payer.is_signer ≡ true)
        × ((guardian ==ᵇ zeros 32) ≡ false)
        × (1 ≤ delay)
        × (length (w config.key).content ≡ 128)
        × (has_pending (w config.key).content ≡ false)
        × (store_nonce hybrid auth.next_nonce (
              set_content config.key
                (set_delay_slots delay (set_guardian_ed25519 guardian (w config.key).content))
                w)
            ≡ ok w')
  unfolding process_set_recovery_config update_recovery_config Recovery.try_from_bytes
  set_steps payer system_program payload guardian delay wire w w' bump auth d act used e ha sp h =
      ground arith

  -- A change of the guardian on a config account in use that succeeds was authorized for that
  -- guardian and delay, neither of which is zero, and the payer has signed; it found no pending
  -- proposal, stores both in the data of the config, changes the data of the hybrid account in the
  -- nonce alone, and leaves every third account alone.
  pub process_set_recovery_config-Reconfigured :
      (payer system_program : AccountInfo) (payload guardian : Bytes) (delay : ℕ)
      (wire : ExecuteIntentWire) (w w' : World)
      → IsBytes payload
      → decode (take 49 payload) ≡ ok wire
      → wire.action ≡ set_recovery_config guardian delay
      → data_is_empty (w config.key) ≡ false
      → process_set_recovery_config rt program_id
          (hybrid ∷ config ∷ payer ∷ system_program ∷ sysvar ∷ [])
          payload
          w
        ≡ ok w'
      → (payer.is_signer ≡ true)
        × (guardian ≢ zeros 32)
        × (1 ≤ delay)
        × (has_pending (w config.key).content ≡ false)
        × Reconfigured rt program_id hybrid config sysvar wire
            (drop 49 payload)
            (set_delay_slots delay (set_guardian_ed25519 guardian (w config.key).content))
            w
            w'
  unfolding process_set_recovery_config
  process_set_recovery_config-Reconfigured payer system_program payload guardian delay wire w w'
        bytes d act used h =
      let sp = split_wire_and_falcon_lem payload (ground arith) in
      let key_range : IsKey guardian × IsU64 delay =
        ground (arith, decode-IsAction (take 49 payload) wire (take-All IsU8 49 payload bytes) d) in
      elim (Result-cases (verify_recovery_config_pda rt program_id hybrid.key config.key)) [
        | inr (x, refused) ↦ absurd (ground arith)
        | inl (bump, e) ↦
            elim (Result-cases (authorize rt program_id hybrid sysvar wire (drop 49 payload) w)) [
              | inr (x, refused) ↦ absurd (ground arith)
              | inl (auth, ha) ↦
                  let a =
                    authorize-Authorized rt program_id hybrid sysvar wire (drop 49 payload) w auth
                      ha in
                  let cfg = (w config.key).content in
                  let (sg, nz, positive, size, np, st) =
                    set_steps payer system_program payload guardian delay wire w w' bump auth d act
                      used e ha sp h in
                  let apart : hybrid.key ≢ config.key =
                    λ q. absurd (omega (arith, size, a.size, ap (λ k. length (w k).content) q)) in
                  (
                    sg,
                    λ q. ground (arith, nz, ==ᵇ_iff guardian (zeros 32)),
                    positive,
                    np,
                    reconfigure rt program_id hybrid config sysvar wire (drop 49 payload)
                        (set_delay_slots delay (set_guardian_ed25519 guardian cfg)) w w' auth ha
                        apart (has_pending-set_guardian guardian delay cfg key_range.0.0 ∙ np) st,
                  )
            ]
      ]
