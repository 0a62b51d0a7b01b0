-- ===== src/Tests/Keys.antt =====
-- Rotations of the keys.
use solana_hybrid_pq_account.Base.{◌≡◌, ◌≢◌, refl, some, [], ◌∷◌, Bytes, arith, take, drop, length}
use solana_hybrid_pq_account.Base.Words.{IsBytes}
use solana_hybrid_pq_account.Core.Error.{ok}
use solana_hybrid_pq_account.Core.Intent
use solana_hybrid_pq_account.Core.Intent.{
  transfer_sol, transfer_spl, Action, AuthorizationIntent, IsIntent, IsKey, IsAction,
}
use solana_hybrid_pq_account.Core.Wire.{decode}
use solana_hybrid_pq_account.Core.Account.{owner_ed25519}
use solana_hybrid_pq_account.Program.Runtime.{World}
use solana_hybrid_pq_account.Tests.Runs
use solana_hybrid_pq_account.Tests.Runs.{succeeds}
use solana_hybrid_pq_account.Tests.Fixture.{
  key, program_id, info, ledger, hybrid_bytes, config_bytes, runtime, wire, payload, run, run-ok,
  falcon_payload, all_u8-IsBytes,
}
use solana_hybrid_pq_account.Program.Rotate.{process_rotate_ed25519, process_rotate_falcon}
use solana_hybrid_pq_account.Program.Rotate.Effect.{process_rotate_ed25519-OwnerRotated}
use solana_hybrid_pq_account.Program.Rotate.FalconKey.{
  FalconRotated, process_rotate_falcon-FalconRotated,
}
use solana_hybrid_pq_account.Program.SocialRecovery.Owner.{OwnerRotated}

abbrev rotate_before : World
rotate_before = ledger (hybrid_bytes 2 0 41) (config_bytes 50 (key 21) 60)

abbrev rotate_after : World
rotate_after =
    run
      (process_rotate_ed25519 (runtime 10) program_id (info 1 ∷ info 4 ∷ info 3 ∷ [])
        (payload (Intent.rotate_ed25519_key (key 20))) rotate_before)
      rotate_before

rotate_ok :
    process_rotate_ed25519
      (runtime 10)
      program_id
      (info 1 ∷ info 4 ∷ info 3 ∷ [])
      (payload (Intent.rotate_ed25519_key (key 20)))
      rotate_before
    ≡ ok rotate_after
unfolding succeeds
rotate_ok =
    run-ok
      (process_rotate_ed25519 (runtime 10) program_id (info 1 ∷ info 4 ∷ info 3 ∷ [])
        (payload (Intent.rotate_ed25519_key (key 20))) rotate_before)
      rotate_before Runs.rotate_ed25519_runs

rotate_decodes :
    decode (take 49 (payload (Intent.rotate_ed25519_key (key 20))))
    ≡ ok (wire (Intent.rotate_ed25519_key (key 20)))
unfolding succeeds
rotate_decodes = refl

rotate-IsBytes : IsBytes (payload (Intent.rotate_ed25519_key (key 20)))
unfolding succeeds
rotate-IsBytes = all_u8-IsBytes (payload (Intent.rotate_ed25519_key (key 20))) refl

process_rotate_ed25519-OwnerRotated_example :
    (key 20 ≢ owner_ed25519 (rotate_before (info 1).key).content)
    × OwnerRotated
        (runtime 10)
        program_id
        (info 1)
        (info 4)
        (info 3)
        (wire (Intent.rotate_ed25519_key (key 20)))
        (drop 49 (payload (Intent.rotate_ed25519_key (key 20))))
        (key 20)
        rotate_before
        rotate_after
process_rotate_ed25519-OwnerRotated_example =
    process_rotate_ed25519-OwnerRotated (runtime 10) program_id (info 1) (info 4) (info 3)
      (payload (Intent.rotate_ed25519_key (key 20))) (key 20)
      (wire (Intent.rotate_ed25519_key (key 20))) rotate_before rotate_after rotate-IsBytes
      rotate_decodes refl rotate_ok

abbrev falcon_before : World
falcon_before = ledger (hybrid_bytes 2 0 41) []

abbrev falcon_after : World
falcon_after =
    run
      (process_rotate_falcon (runtime 10) program_id (info 1 ∷ info 3 ∷ [])
        (falcon_payload (Intent.rotate_falcon_key (key 5))) falcon_before)
      falcon_before

falcon_ok :
    process_rotate_falcon
      (runtime 10)
      program_id
      (info 1 ∷ info 3 ∷ [])
      (falcon_payload (Intent.rotate_falcon_key (key 5)))
      falcon_before
    ≡ ok falcon_after
unfolding succeeds
falcon_ok =
    run-ok
      (process_rotate_falcon (runtime 10) program_id (info 1 ∷ info 3 ∷ [])
        (falcon_payload (Intent.rotate_falcon_key (key 5))) falcon_before)
      falcon_before Runs.rotate_falcon_runs

falcon_decodes :
    decode (take 49 (falcon_payload (Intent.rotate_falcon_key (key 5))))
    ≡ ok (wire (Intent.rotate_falcon_key (key 5)))
unfolding succeeds
falcon_decodes = refl

falcon-IsBytes : IsBytes (falcon_payload (Intent.rotate_falcon_key (key 5)))
unfolding succeeds
falcon-IsBytes = all_u8-IsBytes (falcon_payload (Intent.rotate_falcon_key (key 5))) refl

prepares_1024 :
    (pubkey prepared : Bytes)
    → (runtime 10).try_prepare_pubkey pubkey ≡ some prepared
    → length prepared ≡ 1024
prepares_1024 pubkey prepared e = ground arith

process_rotate_falcon-FalconRotated_example :
    FalconRotated
      (runtime 10)
      program_id
      (info 1)
      (info 3)
      (falcon_payload (Intent.rotate_falcon_key (key 5)))
      (key 5)
      (wire (Intent.rotate_falcon_key (key 5)))
      falcon_before
      falcon_after
process_rotate_falcon-FalconRotated_example =
    process_rotate_falcon-FalconRotated (runtime 10) program_id (info 1) (info 3) prepares_1024
      (falcon_payload (Intent.rotate_falcon_key (key 5))) (key 5)
      (wire (Intent.rotate_falcon_key (key 5))) falcon_before falcon_after falcon-IsBytes
      falcon_decodes refl falcon_ok
