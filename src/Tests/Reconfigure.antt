-- ===== src/Tests/Reconfigure.antt =====
-- Cancelling a social recovery, and replacing the guardian.
use solana_hybrid_pq_account.Base.{◌≤◌, ◌≡◌, ◌≢◌, refl, true, false, [], ◌∷◌, take, drop}
use solana_hybrid_pq_account.Base.Layout.{zeros}
use solana_hybrid_pq_account.Base.Words.{IsBytes}
use solana_hybrid_pq_account.Core.Error.{ok}
use solana_hybrid_pq_account.Core.Intent
use solana_hybrid_pq_account.Core.Intent.{
  transfer_sol, transfer_spl, Action, AuthorizationIntent, IsIntent, IsKey, IsAction,
}
use solana_hybrid_pq_account.Core.Wire.{decode}
use solana_hybrid_pq_account.Core.Recovery.{
  has_pending, clear_pending, set_delay_slots, set_guardian_ed25519,
}
use solana_hybrid_pq_account.Program.Runtime.{World, data_is_empty}
use solana_hybrid_pq_account.Tests.Runs
use solana_hybrid_pq_account.Tests.Runs.{succeeds}
use solana_hybrid_pq_account.Tests.Fixture.{
  key, program_id, info, ledger, hybrid_bytes, config_bytes, runtime, wire, payload, run, run-ok,
  all_u8-IsBytes,
}
use solana_hybrid_pq_account.Program.SocialRecovery.{
  process_cancel_social_recovery, process_set_recovery_config,
}
use solana_hybrid_pq_account.Program.SocialRecovery.Reconfigure.{Reconfigured}
use solana_hybrid_pq_account.Program.SocialRecovery.Cancel.{
  process_cancel_social_recovery-Reconfigured,
}
use solana_hybrid_pq_account.Program.SocialRecovery.Replace.{
  process_set_recovery_config-Reconfigured,
}

abbrev cancel_before : World
cancel_before = ledger (hybrid_bytes 2 1 41) (config_bytes 50 (key 20) 60)

abbrev cancel_after : World
cancel_after =
    run
      (process_cancel_social_recovery (runtime 10) program_id (info 1 ∷ info 4 ∷ info 3 ∷ [])
        (payload Intent.cancel_social_recovery) cancel_before)
      cancel_before

cancel_ok :
    process_cancel_social_recovery
      (runtime 10)
      program_id
      (info 1 ∷ info 4 ∷ info 3 ∷ [])
      (payload Intent.cancel_social_recovery)
      cancel_before
    ≡ ok cancel_after
unfolding succeeds
cancel_ok =
    run-ok
      (process_cancel_social_recovery (runtime 10) program_id (info 1 ∷ info 4 ∷ info 3 ∷ [])
        (payload Intent.cancel_social_recovery) cancel_before)
      cancel_before Runs.cancel_runs

cancel_decodes :
    decode (take 49 (payload Intent.cancel_social_recovery))
    ≡ ok (wire (Intent.cancel_social_recovery))
unfolding succeeds
cancel_decodes = refl

process_cancel_social_recovery-Reconfigured_example :
    ((wire Intent.cancel_social_recovery).action ≡ Intent.cancel_social_recovery)
    × (has_pending (cancel_before (info 4).key).content ≡ true)
    × Reconfigured
        (runtime 10)
        program_id
        (info 1)
        (info 4)
        (info 3)
        (wire Intent.cancel_social_recovery)
        (drop 49 (payload Intent.cancel_social_recovery))
        (clear_pending (cancel_before (info 4).key).content)
        cancel_before
        cancel_after
process_cancel_social_recovery-Reconfigured_example =
    process_cancel_social_recovery-Reconfigured (runtime 10) program_id (info 1) (info 4) (info 3)
      (payload Intent.cancel_social_recovery) (wire Intent.cancel_social_recovery) cancel_before
      cancel_after cancel_decodes cancel_ok

abbrev set_before : World
set_before = ledger (hybrid_bytes 2 0 41) (config_bytes 50 (key 0) 0)

abbrev set_after : World
set_after =
    run
      (process_set_recovery_config (runtime 10) program_id
        (info 1 ∷ info 4 ∷ info 2 ∷ info 11 ∷ info 3 ∷ [])
        (payload (Intent.set_recovery_config (key 22) 80)) set_before)
      set_before

set_ok :
    process_set_recovery_config
      (runtime 10)
      program_id
      (info 1 ∷ info 4 ∷ info 2 ∷ info 11 ∷ info 3 ∷ [])
      (payload (Intent.set_recovery_config (key 22) 80))
      set_before
    ≡ ok set_after
unfolding succeeds
set_ok =
    run-ok
      (process_set_recovery_config (runtime 10) program_id
        (info 1 ∷ info 4 ∷ info 2 ∷ info 11 ∷ info 3 ∷ [])
        (payload (Intent.set_recovery_config (key 22) 80)) set_before)
      set_before Runs.set_config_runs

set_decodes :
    decode (take 49 (payload (Intent.set_recovery_config (key 22) 80)))
    ≡ ok (wire (Intent.set_recovery_config (key 22) 80))
unfolding succeeds
set_decodes = refl

set-IsBytes : IsBytes (payload (Intent.set_recovery_config (key 22) 80))
unfolding succeeds
set-IsBytes = all_u8-IsBytes (payload (Intent.set_recovery_config (key 22) 80)) refl

set_used : data_is_empty (set_before (info 4).key) ≡ false
unfolding succeeds
set_used = refl

process_set_recovery_config-Reconfigured_example :
    ((info 2).is_signer ≡ true)
    × (key 22 ≢ zeros 32)
    × (1 ≤ 80)
    × (has_pending (set_before (info 4).key).content ≡ false)
    × Reconfigured
        (runtime 10)
        program_id
        (info 1)
        (info 4)
        (info 3)
        (wire (Intent.set_recovery_config (key 22) 80))
        (drop 49 (payload (Intent.set_recovery_config (key 22) 80)))
        (set_delay_slots 80 (set_guardian_ed25519 (key 22) (set_before (info 4).key).content))
        set_before
        set_after
process_set_recovery_config-Reconfigured_example =
    process_set_recovery_config-Reconfigured (runtime 10) program_id (info 1) (info 4) (info 3)
      (info 2) (info 11) (payload (Intent.set_recovery_config (key 22) 80)) (key 22) 80
      (wire (Intent.set_recovery_config (key 22) 80)) set_before set_after set-IsBytes set_decodes
      refl set_used set_ok
