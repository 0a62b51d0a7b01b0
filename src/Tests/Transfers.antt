-- ===== src/Tests/Transfers.antt =====
-- A transfer of lamports and a policy change.
use solana_hybrid_pq_account.Base.{◌≡◌, refl, [], ◌∷◌, take, drop}
use solana_hybrid_pq_account.Base.Words.{IsBytes}
use solana_hybrid_pq_account.Core.Error.{ok}
use solana_hybrid_pq_account.Core.Intent
use solana_hybrid_pq_account.Core.Intent.{
  transfer_sol, transfer_spl, Action, AuthorizationIntent, IsIntent, IsKey, IsAction,
}
use solana_hybrid_pq_account.Core.Wire.{decode}
use solana_hybrid_pq_account.Program.Runtime.{World}
use solana_hybrid_pq_account.Tests.Runs
use solana_hybrid_pq_account.Tests.Runs.{succeeds}
use solana_hybrid_pq_account.Tests.Fixture.{
  key, program_id, info, ledger, hybrid_bytes, runtime, wire, payload, run, run-ok, all_u8-IsBytes,
}
use solana_hybrid_pq_account.Program.Execute
use solana_hybrid_pq_account.Program.Execute.Transferred.{Transferred, process-Transferred}
use solana_hybrid_pq_account.Program.ChangePolicy
use solana_hybrid_pq_account.Program.ChangePolicy.Effect.{PolicyChanged, process-PolicyChanged}

abbrev transfer_before : World
transfer_before = ledger (hybrid_bytes 2 0 41) []

abbrev transfer_after : World
transfer_after =
    run
      (Execute.process (runtime 10) program_id (info 1 ∷ info 2 ∷ info 3 ∷ [])
        (payload (transfer_sol (key 2) 1000)) transfer_before)
      transfer_before

transfer_ok :
    Execute.process
      (runtime 10)
      program_id
      (info 1 ∷ info 2 ∷ info 3 ∷ [])
      (payload (transfer_sol (key 2) 1000))
      transfer_before
    ≡ ok transfer_after
unfolding succeeds
transfer_ok =
    run-ok
      (Execute.process (runtime 10) program_id (info 1 ∷ info 2 ∷ info 3 ∷ [])
        (payload (transfer_sol (key 2) 1000)) transfer_before)
      transfer_before Runs.transfer_sol_runs

transfer_decodes :
    decode (take 49 (payload (transfer_sol (key 2) 1000))) ≡ ok (wire (transfer_sol (key 2) 1000))
unfolding succeeds
transfer_decodes = refl

process-Transferred_example :
    Transferred
      (runtime 10)
      program_id
      (info 1)
      (info 2)
      (info 3)
      (wire (transfer_sol (key 2) 1000))
      (drop 49 (payload (transfer_sol (key 2) 1000)))
      (key 2)
      1000
      transfer_before
      transfer_after
process-Transferred_example =
    process-Transferred (runtime 10) program_id (info 1) (info 2) (info 3)
      (payload (transfer_sol (key 2) 1000)) (wire (transfer_sol (key 2) 1000)) (key 2) 1000
      transfer_before transfer_after transfer_decodes refl transfer_ok

abbrev policy_before : World
policy_before = ledger (hybrid_bytes 2 0 41) []

abbrev policy_after : World
policy_after =
    run
      (ChangePolicy.process (runtime 10) program_id (info 1 ∷ info 3 ∷ [])
        (payload (Intent.change_policy 5 700)) policy_before)
      policy_before

policy_ok :
    ChangePolicy.process
      (runtime 10)
      program_id
      (info 1 ∷ info 3 ∷ [])
      (payload (Intent.change_policy 5 700))
      policy_before
    ≡ ok policy_after
unfolding succeeds
policy_ok =
    run-ok
      (ChangePolicy.process (runtime 10) program_id (info 1 ∷ info 3 ∷ [])
        (payload (Intent.change_policy 5 700)) policy_before)
      policy_before Runs.change_policy_runs

policy_decodes :
    decode (take 49 (payload (Intent.change_policy 5 700))) ≡ ok (wire (Intent.change_policy 5 700))
unfolding succeeds
policy_decodes = refl

policy-IsBytes : IsBytes (payload (Intent.change_policy 5 700))
unfolding succeeds
policy-IsBytes = all_u8-IsBytes (payload (Intent.change_policy 5 700)) refl

content-IsBytes : IsBytes (hybrid_bytes 2 0 41)
unfolding succeeds
content-IsBytes = all_u8-IsBytes (hybrid_bytes 2 0 41) refl

policy_content-IsBytes : IsBytes (policy_before (info 1).key).content
unfolding succeeds
policy_content-IsBytes = content-IsBytes

process-PolicyChanged_example :
    PolicyChanged
      (runtime 10)
      program_id
      (info 1)
      (info 3)
      (wire (Intent.change_policy 5 700))
      (drop 49 (payload (Intent.change_policy 5 700)))
      5
      700
      policy_before
      policy_after
process-PolicyChanged_example =
    process-PolicyChanged (runtime 10) program_id (info 1) (info 3)
      (wire (Intent.change_policy 5 700)) 5 700 (payload (Intent.change_policy 5 700)) policy_before
      policy_after policy-IsBytes policy_content-IsBytes policy_decodes refl policy_ok
