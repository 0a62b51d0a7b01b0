-- ===== src/Tests/Recovery.antt =====
-- The guardian's recovery.
use solana_hybrid_pq_account.Base.{ℕ, ◌≤◌, ◌≡◌, refl, false, [], ◌∷◌}
use solana_hybrid_pq_account.Core.Error.{ok}
use solana_hybrid_pq_account.Core.Account.{owner_ed25519}
use solana_hybrid_pq_account.Core.Recovery.{has_pending}
use solana_hybrid_pq_account.Program.Runtime.{World}
use solana_hybrid_pq_account.Program.SocialRecovery.Trace.{
  Trace, done, next, initiate, other, ProposedIn, finalized-ProposedIn,
}
use solana_hybrid_pq_account.Tests.Runs
use solana_hybrid_pq_account.Tests.Runs.{succeeds}
use solana_hybrid_pq_account.Tests.Fixture.{
  key, program_id, info, ledger, hybrid_bytes, config_bytes, runtime, run, run-ok,
}
use solana_hybrid_pq_account.Program.SocialRecovery.{
  process_initiate_social_recovery, process_finalize_social_recovery,
}
use solana_hybrid_pq_account.Program.SocialRecovery.Initiate.{
  Initiated, process_initiate_social_recovery-Initiated,
}
use solana_hybrid_pq_account.Program.SocialRecovery.Finalize.{
  Finalized, process_finalize_social_recovery-Finalized,
}

abbrev initiate_before : World
initiate_before = ledger (hybrid_bytes 2 1 41) (config_bytes 50 (key 0) 0)

abbrev initiate_after : World
initiate_after =
    run
      (process_initiate_social_recovery (runtime 10) program_id (info 1 ∷ info 4 ∷ info 3 ∷ [])
        (key 20) initiate_before)
      initiate_before

initiate_ok :
    process_initiate_social_recovery
      (runtime 10)
      program_id
      (info 1 ∷ info 4 ∷ info 3 ∷ [])
      (key 20)
      initiate_before
    ≡ ok initiate_after
unfolding succeeds
initiate_ok =
    run-ok
      (process_initiate_social_recovery (runtime 10) program_id (info 1 ∷ info 4 ∷ info 3 ∷ [])
        (key 20) initiate_before)
      initiate_before Runs.initiate_runs

process_initiate_social_recovery-Initiated_example :
    Initiated
      (runtime 10)
      program_id
      (info 1)
      (info 4)
      (info 3)
      (key 20)
      initiate_before
      initiate_after
process_initiate_social_recovery-Initiated_example =
    process_initiate_social_recovery-Initiated (runtime 10) program_id (info 1) (info 4) (info 3)
      (key 20) initiate_before initiate_after initiate_ok

abbrev finalize_before : World
finalize_before = ledger (hybrid_bytes 2 1 41) (config_bytes 50 (key 20) 60)

abbrev finalize_after : World
finalize_after =
    run
      (process_finalize_social_recovery (runtime 70) program_id (info 1 ∷ info 4 ∷ []) ([])
        finalize_before)
      finalize_before

finalize_ok :
    process_finalize_social_recovery
      (runtime 70)
      program_id
      (info 1 ∷ info 4 ∷ [])
      ([])
      finalize_before
    ≡ ok finalize_after
unfolding succeeds
finalize_ok =
    run-ok
      (process_finalize_social_recovery (runtime 70) program_id (info 1 ∷ info 4 ∷ []) ([])
        finalize_before)
      finalize_before Runs.finalize_runs

process_finalize_social_recovery-Finalized_example :
    Finalized (runtime 70) program_id (info 1) (info 4) finalize_before finalize_after
process_finalize_social_recovery-Finalized_example =
    process_finalize_social_recovery-Finalized (runtime 70) program_id (info 1) (info 4)
      finalize_before finalize_after finalize_ok

same_config : (finalize_before (info 4).key).content ≡ (initiate_after (info 4).key).content
unfolding succeeds
same_config = refl

initiate_none : has_pending (initiate_before (info 4).key).content ≡ false
unfolding succeeds
initiate_none = refl

abbrev trace : Trace program_id (info 1) (info 4) initiate_before finalize_before
trace =
    next initiate_before initiate_after finalize_before
      (next initiate_before initiate_before initiate_after (done initiate_before)
        (initiate (runtime 10) (info 3) (key 20) initiate_before initiate_after initiate_ok))
      (other initiate_after finalize_before same_config)

finalized-ProposedIn_example :
    (ready : ℕ) × ProposedIn program_id
      (info 1)
      (info 4)
      initiate_before
      finalize_before
      trace
      (owner_ed25519 (finalize_after (info 1).key).content)
      ready
    × (ready ≤ 70)
finalized-ProposedIn_example =
    finalized-ProposedIn program_id (info 1) (info 4) (runtime 70) initiate_before finalize_before
      finalize_after trace 70 initiate_none finalize_ok refl
