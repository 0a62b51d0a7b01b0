-- ===== src/Program/Processor/Harness.antt =====
-- The verification harness changes nothing.
use solana_hybrid_pq_account.Base.{◌≡◌, true, List, Bytes, arith, inl, inr, ◌∷◌}
use solana_hybrid_pq_account.Core.Error.{ok, Result-cases}
use solana_hybrid_pq_account.Program.Runtime.{Runtime, World, AccountInfo}
use solana_hybrid_pq_account.Program.Reconstruct.{process_reconstruct_canonical_digest}
use solana_hybrid_pq_account.Program.Instruction.{
  DualKeyInstruction, verify_falcon_prepared, verify_falcon_raw, verify_canonical_digest,
  reconstruct_canonical_digest, is_verification_harness, as_u8,
}
use solana_hybrid_pq_account.Program.Instruction.Codes.{known_code}
use solana_hybrid_pq_account.Program.Processor.{
  dispatch, process, process_verify_falcon_prepared, process_verify_falcon_raw,
  process_verify_canonical_digest,
}

dispatch-unchanged :
    (rt : Runtime) (ix : DualKeyInstruction) (program_id : Bytes) (accounts : List AccountInfo)
    (payload : Bytes) (w w' : World)
    → is_verification_harness ix ≡ true
    → dispatch rt ix program_id accounts payload w ≡ ok w'
    → w' ≡ w
unfolding is_verification_harness dispatch process_reconstruct_canonical_digest
dispatch-unchanged rt verify_falcon_prepared pid acc p w w' k h =
    elim (Result-cases (process_verify_falcon_prepared rt acc p w)) [
      | inr (x, refused) ↦ absurd (ground arith)
      | inl (u, e) ↦ ground arith
    ]
dispatch-unchanged rt verify_falcon_raw pid acc p w w' k h =
    elim (Result-cases (process_verify_falcon_raw rt p)) [
      | inr (x, refused) ↦ absurd (ground arith)
      | inl (u, e) ↦ ground arith
    ]
dispatch-unchanged rt verify_canonical_digest pid acc p w w' k h =
    elim (Result-cases (process_verify_canonical_digest rt p)) [
      | inr (x, refused) ↦ absurd (ground arith)
      | inl (u, e) ↦ ground arith
    ]
dispatch-unchanged rt reconstruct_canonical_digest pid acc p w w' k h = ground arith
dispatch-unchanged rt _ pid acc p w w' k h = cc

-- Whatever the accounts and the data, a harness instruction that succeeds leaves every account as
-- it was.
pub harness-unchanged :
    (rt : Runtime) (ix : DualKeyInstruction) (program_id : Bytes) (accounts : List AccountInfo)
    (payload : Bytes) (w w' : World)
    → is_verification_harness ix ≡ true
    → process rt program_id accounts (as_u8 ix ∷ payload) w ≡ ok w'
    → w' ≡ w
unfolding process
harness-unchanged rt ix pid acc p w w' k h =
    dispatch-unchanged rt ix pid acc p w w' k (ground (arith, known_code ix))
