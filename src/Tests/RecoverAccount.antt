-- ===== src/Tests/RecoverAccount.antt =====
-- The recovery instruction: the rotation of the owner and the flag.
use solana_hybrid_pq_account.Base.{◌+◌, ◌≡◌, ◌≢◌, refl, true, not, [], ◌∷◌, Bytes, take, drop}
use solana_hybrid_pq_account.Base.Layout.{zeros}
use solana_hybrid_pq_account.Base.Words.{IsBytes}
use solana_hybrid_pq_account.Core.Error.{ok}
use solana_hybrid_pq_account.Core.RecoveryOp.{rotate_ed25519, enable}
use solana_hybrid_pq_account.Core.Intent
use solana_hybrid_pq_account.Core.Intent.{
  transfer_sol, transfer_spl, Action, AuthorizationIntent, IsIntent, IsKey, IsAction,
}
use solana_hybrid_pq_account.Core.Wire.{decode}
use solana_hybrid_pq_account.Core.Account.{nonce, owner_ed25519, recovery_enabled}
use solana_hybrid_pq_account.Core.Account.Field.{Field, rank, field}
use solana_hybrid_pq_account.Program.Runtime.{World}
use solana_hybrid_pq_account.Tests.Runs
use solana_hybrid_pq_account.Tests.Runs.{succeeds}
use solana_hybrid_pq_account.Tests.Fixture.{
  key, program_id, info, ledger, hybrid_bytes, runtime, wire, payload, run, run-ok, all_u8-IsBytes,
}
use solana_hybrid_pq_account.Program.SocialRecovery.Owner.{OwnerRotated}
use solana_hybrid_pq_account.Program.Recover
use solana_hybrid_pq_account.Program.Recover.Effect.{process-OwnerRotated, process-flag}
use solana_hybrid_pq_account.Program.Authorize.{Authorization}
use solana_hybrid_pq_account.Program.Authorize.Sound.{Authorized, SignedFalcon}

abbrev recover_before : World
recover_before = ledger (hybrid_bytes 2 1 41) []

abbrev recover_after : World
recover_after =
    run
      (Recover.process (runtime 10) program_id (info 1 ∷ info 4 ∷ info 3 ∷ [])
        (payload (Intent.recover_account rotate_ed25519 (key 20))) recover_before)
      recover_before

recover_ok :
    Recover.process
      (runtime 10)
      program_id
      (info 1 ∷ info 4 ∷ info 3 ∷ [])
      (payload (Intent.recover_account rotate_ed25519 (key 20)))
      recover_before
    ≡ ok recover_after
unfolding succeeds
recover_ok =
    run-ok
      (Recover.process (runtime 10) program_id (info 1 ∷ info 4 ∷ info 3 ∷ [])
        (payload (Intent.recover_account rotate_ed25519 (key 20))) recover_before)
      recover_before Runs.recover_rotate_runs

recover_decodes :
    decode (take 49 (payload (Intent.recover_account rotate_ed25519 (key 20))))
    ≡ ok (wire (Intent.recover_account rotate_ed25519 (key 20)))
unfolding succeeds
recover_decodes = refl

recover-IsBytes : IsBytes (payload (Intent.recover_account rotate_ed25519 (key 20)))
unfolding succeeds
recover-IsBytes = all_u8-IsBytes (payload (Intent.recover_account rotate_ed25519 (key 20))) refl

process-OwnerRotated_example :
    (recovery_enabled (recover_before (info 1).key).content ≡ true)
    × SignedFalcon
        (runtime 10)
        program_id
        (info 1)
        (info 3)
        (wire (Intent.recover_account rotate_ed25519 (key 20)))
        (drop 49 (payload (Intent.recover_account rotate_ed25519 (key 20))))
        recover_before
    × (key 20 ≢ owner_ed25519 (recover_before (info 1).key).content)
    × (key 20 ≢ zeros 32)
    × OwnerRotated
        (runtime 10)
        program_id
        (info 1)
        (info 4)
        (info 3)
        (wire (Intent.recover_account rotate_ed25519 (key 20)))
        (drop 49 (payload (Intent.recover_account rotate_ed25519 (key 20))))
        (key 20)
        recover_before
        recover_after
process-OwnerRotated_example =
    process-OwnerRotated (runtime 10) program_id (info 1) (info 4) (info 3)
      (payload (Intent.recover_account rotate_ed25519 (key 20))) (key 20)
      (wire (Intent.recover_account rotate_ed25519 (key 20))) recover_before recover_after
      recover-IsBytes recover_decodes refl recover_ok

abbrev enable_before : World
enable_before = ledger (hybrid_bytes 2 0 41) []

abbrev enable_after : World
enable_after =
    run
      (Recover.process (runtime 10) program_id (info 1 ∷ info 3 ∷ [])
        (payload (Intent.recover_account enable (key 0))) enable_before)
      enable_before

enable_ok :
    Recover.process
      (runtime 10)
      program_id
      (info 1 ∷ info 3 ∷ [])
      (payload (Intent.recover_account enable (key 0)))
      enable_before
    ≡ ok enable_after
unfolding succeeds
enable_ok =
    run-ok
      (Recover.process (runtime 10) program_id (info 1 ∷ info 3 ∷ [])
        (payload (Intent.recover_account enable (key 0))) enable_before)
      enable_before Runs.recover_enable_runs

enable_decodes :
    decode (take 49 (payload (Intent.recover_account enable (key 0))))
    ≡ ok (wire (Intent.recover_account enable (key 0)))
unfolding succeeds
enable_decodes = refl

enable_content-IsBytes : IsBytes (enable_before (info 1).key).content
unfolding succeeds
enable_content-IsBytes = all_u8-IsBytes (hybrid_bytes 2 0 41) refl

process-flag_example :
    (auth : Authorization) × Authorized
      (runtime 10)
      program_id
      (info 1)
      (info 3)
      (wire (Intent.recover_account enable (key 0)))
      (drop 49 (payload (Intent.recover_account enable (key 0))))
      enable_before
      auth
    × (recovery_enabled (enable_before (info 1).key).content ≡ not true)
    × (recovery_enabled (enable_after (info 1).key).content ≡ true)
    × (nonce (enable_after (info 1).key).content ≡ nonce (enable_before (info 1).key).content + 1)
    × ((f : Field)
        → rank f ≢ 3
        → rank f ≢ 7
        → field f (enable_after (info 1).key).content
          ≡ field f (enable_before (info 1).key).content)
    × ((k : Bytes) → k ≢ (info 1).key → enable_after k ≡ enable_before k)
process-flag_example =
    process-flag (runtime 10) program_id (info 1) (info 4) (info 3)
      (payload (Intent.recover_account enable (key 0))) (key 0) true
      (wire (Intent.recover_account enable (key 0))) enable_before enable_after
      enable_content-IsBytes enable_decodes refl enable_ok
