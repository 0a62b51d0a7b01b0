-- ===== src/Tests/Signatures.antt =====
-- Requirements, signatures, token accounts and the dispatch.
use solana_hybrid_pq_account.Base.{
  ◌≡◌, ◌≢◌, ◌↔◌, refl, true, false, none, some, [], ◌∷◌, ◌++◌, arith, replicate,
}
use solana_hybrid_pq_account.Core.Error.{ok}
use solana_hybrid_pq_account.Core.Intent.{transfer_sol, change_policy, rotate_falcon_key, IsKey}
use solana_hybrid_pq_account.Core.Policy.{
  falcon, both, hybrid_and, ed25519_only, falcon_only, signature_requirement,
}
use solana_hybrid_pq_account.Core.Account.{nonce}
use solana_hybrid_pq_account.Program.Runtime.{World, Instruction}
use solana_hybrid_pq_account.Program.Ed25519.{verify_ed25519_precompile}
use solana_hybrid_pq_account.Program.Ed25519.Sound.{Names, verify_ed25519_precompile-Names}
use solana_hybrid_pq_account.Program.Evaluate.{SignatureValidity, evaluate_requirement}
use solana_hybrid_pq_account.Program.Authorize.{Authorization, authorize, resulting_threshold}
use solana_hybrid_pq_account.Program.Authorize.Requirement.{
  change_policy-stricter, privileged-needs-falcon,
}
use solana_hybrid_pq_account.Program.Authorize.Sound.{Authorized, authorize_iff}
use solana_hybrid_pq_account.Program.Replay.{message, authorize-never-replayed}
use solana_hybrid_pq_account.Program.Instruction.{verify_canonical_digest, initialize}
use solana_hybrid_pq_account.Program.Instruction
use solana_hybrid_pq_account.Program.Processor.{process, process_verify_canonical_digest}
use solana_hybrid_pq_account.Tests.Runs.{succeeds}
use solana_hybrid_pq_account.Tests.Fixture.{
  key, program_id, info, ledger, hybrid_bytes, runtime, wire, all_u8-IsBytes,
}

key_IsKey : IsKey (key 14)
key_IsKey = (refl, all_u8-IsBytes (key 14) refl)

abbrev valid : SignatureValidity
valid = record { ed25519_valid = true; falcon_valid = true }

change_policy-stricter_example : (evaluate_requirement both valid ≡ ok tt) ↔ (
    (evaluate_requirement (signature_requirement hybrid_and (change_policy 0 0) none) valid ≡ ok tt)
    × (evaluate_requirement
          (signature_requirement ed25519_only
            (change_policy 0 0)
            (resulting_threshold ed25519_only 0))
          valid
        ≡ ok tt))
change_policy-stricter_example =
    change_policy-stricter hybrid_and none false 0 0 ed25519_only both valid
      (unfold succeeds in refl) (unfold succeeds in refl)

privileged-needs-falcon_example : valid.falcon_valid ≡ true
privileged-needs-falcon_example =
    privileged-needs-falcon falcon_only none false (rotate_falcon_key (key 5)) falcon valid (λ e. e)
      (unfold succeeds in refl) (unfold succeeds in refl) (unfold succeeds in refl)

abbrev before : World
before = ledger (hybrid_bytes 2 0 41) []

abbrev authorization : Authorization
authorization = record { digest = key 5; policy = hybrid_and; account_nonce = 41; next_nonce = 42 }

authorize_ok :
    authorize
      (runtime 10)
      program_id
      (info 1)
      (info 3)
      (wire (transfer_sol (key 14) 1000))
      (replicate 666 0)
      before
    ≡ ok authorization
unfolding succeeds
authorize_ok = refl

authorize_iff_example :
    (authorize
        (runtime 10)
        program_id
        (info 1)
        (info 3)
        (wire (transfer_sol (key 14) 1000))
        (replicate 666 0)
        before
      ≡ ok authorization)
    ↔ Authorized
        (runtime 10)
        program_id
        (info 1)
        (info 3)
        (wire (transfer_sol (key 14) 1000))
        (replicate 666 0)
        before
        authorization
authorize_iff_example =
    authorize_iff (runtime 10) program_id (info 1) (info 3) (wire (transfer_sol (key 14) 1000))
      (replicate 666 0) before authorization

verify_ed25519_precompile-Names_example :
    (verify_ed25519_precompile (runtime 10) (info 3) (key 7) (key 5) ≡ ok tt) ↔ (
      ((info 3).key ≡ key 3)
      × (ix : Instruction) × ((runtime 10).previous_instruction ≡ some ix)
      × (ix.program ≡ key 10)
      × Names ix.payload (key 7) (key 5))
verify_ed25519_precompile-Names_example =
    verify_ed25519_precompile-Names (runtime 10) (info 3) (key 7) (key 5)

abbrev later : World
later = ledger (hybrid_bytes 2 0 42) []

program_IsKey : IsKey program_id
program_IsKey = (refl, all_u8-IsBytes program_id refl)

account_IsKey : IsKey (info 1).key
account_IsKey = (refl, all_u8-IsBytes (info 1).key refl)

nonce_before : nonce (before (info 1).key).content ≡ 41
unfolding succeeds
nonce_before = refl

nonce_later : nonce (later (info 1).key).content ≡ 42
unfolding succeeds
nonce_later = refl

abbrev later_authorization : Authorization
later_authorization = record {
  digest = key 5;
  policy = hybrid_and;
  account_nonce = 42;
  next_nonce = 43;
}

later_ok :
    authorize
      (runtime 10)
      program_id
      (info 1)
      (info 3)
      (wire (transfer_sol (key 14) 1000))
      (replicate 666 0)
      later
    ≡ ok later_authorization
unfolding succeeds
later_ok = refl

-- The same payload again, once the nonce is consumed.
authorize-never-replayed_example :
    (key 5
      ≡ (runtime 10).sha256
          (message (runtime 10) program_id (info 1) (wire (transfer_sol (key 14) 1000)) before))
    × (key 5
        ≡ (runtime 10).sha256
            (message (runtime 10) program_id (info 1) (wire (transfer_sol (key 14) 1000)) later))
    × (message (runtime 10) program_id (info 1) (wire (transfer_sol (key 14) 1000)) before
        ≢ message (runtime 10) program_id (info 1) (wire (transfer_sol (key 14) 1000)) later)
authorize-never-replayed_example =
    authorize-never-replayed (runtime 10) program_id (info 1) (info 3) (info 3)
      (wire (transfer_sol (key 14) 1000)) (wire (transfer_sol (key 14) 1000)) (replicate 666 0)
      (replicate 666 0) before later authorization later_authorization key_IsKey program_IsKey
      account_IsKey (omega arith, (key_IsKey, omega arith)) (omega arith, (key_IsKey, omega arith))
      authorize_ok (omega (arith, nonce_later)) later_ok

harness_ok : process (runtime 10) program_id [] (242 ∷ replicate 172 0 ++ key 5) before ≡ ok before
unfolding succeeds process process_verify_canonical_digest Instruction.from_u8
harness_ok = refl
