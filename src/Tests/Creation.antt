-- ===== src/Tests/Creation.antt =====
-- A new account.
use solana_hybrid_pq_account.Base.{◌≡◌, refl, some, [], ◌∷◌, Bytes, arith, length, replicate}
use solana_hybrid_pq_account.Core.Error.{ok}
use solana_hybrid_pq_account.Program.Runtime.{World}
use solana_hybrid_pq_account.Tests.Runs
use solana_hybrid_pq_account.Tests.Runs.{succeeds}
use solana_hybrid_pq_account.Tests.Fixture.{
  key, program_id, info, ledger, runtime, run, run-ok, initialize_payload,
}
use solana_hybrid_pq_account.Program.Initialize
use solana_hybrid_pq_account.Program.Initialize.{Args, parse}
use solana_hybrid_pq_account.Program.Initialize.Effect.{Created, process-Created}
use solana_hybrid_pq_account.Core.Policy.{hybrid_and}

abbrev create_before : World
create_before = ledger [] []

abbrev create_after : World
create_after =
    run
      (Initialize.process (runtime 10) program_id (info 2 ∷ info 4 ∷ info 11 ∷ [])
        (initialize_payload) create_before)
      create_before

create_ok :
    Initialize.process
      (runtime 10)
      program_id
      (info 2 ∷ info 4 ∷ info 11 ∷ [])
      (initialize_payload)
      create_before
    ≡ ok create_after
unfolding succeeds
create_ok =
    run-ok
      (Initialize.process (runtime 10) program_id (info 2 ∷ info 4 ∷ info 11 ∷ [])
        (initialize_payload) create_before)
      create_before Runs.initialize_runs

abbrev args : Args
args = record {
  account_index = 0;
  owner_ed25519 = key 7;
  policy = hybrid_and;
  falcon_wire_pubkey = replicate 897 2;
}

args-parse : parse initialize_payload ≡ ok args
unfolding succeeds
args-parse = refl

hash_32 : (m : Bytes) → length ((runtime 10).sha256 m) ≡ 32
hash_32 m = refl

prepares_1024 :
    (pubkey prepared : Bytes)
    → (runtime 10).try_prepare_pubkey pubkey ≡ some prepared
    → length prepared ≡ 1024
prepares_1024 pubkey prepared e = ground arith

process-Created_example :
    Created (runtime 10) program_id (info 2) (info 4) (info 11) args create_before create_after
process-Created_example =
    process-Created (runtime 10) program_id (info 2) (info 4) (info 11) hash_32 prepares_1024
      initialize_payload args create_before create_after args-parse create_ok
