-- ===== src/Program/Processor.antt =====
-- program/src/processor.rs: the dispatch on the discriminator, and the verification harness.
pub mod Harness
use mathlib.Core.List.{head?}
use solana_hybrid_pq_account.Base.{
  ℕ, ◌+◌, Option, none, some, List, [], ◌∷◌, Bytes, length, ◌==◌, ◌==ᵇ◌, take, drop,
}
use solana_hybrid_pq_account.Core.Error.{
  Result, ok, err, ◌>>=◌, ◌>>◌, require, ok_or, malformed_instruction_data, digest_mismatch,
  invalid_account_data,
}
use solana_hybrid_pq_account.Core.Canonical.{canonical_preimage_len}
use solana_hybrid_pq_account.Program.Runtime.{
  Runtime, World, Account, AccountInfo, split_at_checked, get_range,
}
use solana_hybrid_pq_account.Program.Falcon
use solana_hybrid_pq_account.Program.Reconstruct.{
  digest_canonical_preimage, process_reconstruct_canonical_digest,
}
use solana_hybrid_pq_account.Program.Instruction.{
  DualKeyInstruction, initialize, execute, rotate_ed25519_key, rotate_falcon_key, change_policy,
  recover_account, set_recovery_config, initiate_social_recovery, finalize_social_recovery,
  cancel_social_recovery, verify_falcon_prepared, verify_falcon_raw, verify_canonical_digest,
  reconstruct_canonical_digest, from_u8,
}
use solana_hybrid_pq_account.Program.Initialize
use solana_hybrid_pq_account.Program.Execute
use solana_hybrid_pq_account.Program.ChangePolicy
use solana_hybrid_pq_account.Program.Recover
use solana_hybrid_pq_account.Program.Rotate.{process_rotate_ed25519, process_rotate_falcon}
use solana_hybrid_pq_account.Program.SocialRecovery.{
  process_set_recovery_config, process_initiate_social_recovery, process_finalize_social_recovery,
  process_cancel_social_recovery,
}

abbrev pub split_first : Bytes → Option (ℕ × Bytes)
split_first [] = none
split_first (b ∷ bs) = some (b, bs)

module _ (rt : Runtime) where
  unfoldable pub process_verify_falcon_prepared :
      List AccountInfo → Bytes → World → Result (Unit {0})
  process_verify_falcon_prepared accounts payload w = do
    account ← ok_or (head? accounts) malformed_instruction_data
    parts ← ok_or (split_at_checked 666 payload) malformed_instruction_data
    prepared ← ok_or (get_range 0 1024 (w account.key).content) invalid_account_data
    Falcon.verify_falcon_prepared rt prepared parts.1 parts.0

  unfoldable pub process_verify_falcon_raw : Bytes → Result (Unit {0})
  process_verify_falcon_raw payload = do
    p₁ ← ok_or (split_at_checked 666 payload) malformed_instruction_data
    p₂ ← ok_or (split_at_checked 897 p₁.1) malformed_instruction_data
    Falcon.verify_falcon_raw rt p₂.0 p₂.1 p₁.0

  unfoldable pub process_verify_canonical_digest : Bytes → Result (Unit {0})
  process_verify_canonical_digest payload = do
    require (length payload == canonical_preimage_len + 32) malformed_instruction_data
    digest ← digest_canonical_preimage rt (take canonical_preimage_len payload)
    require (digest ==ᵇ drop canonical_preimage_len payload) digest_mismatch
    ok tt

  -- The `match ix` of `process`.
  unfoldable pub dispatch :
      DualKeyInstruction → Bytes → List AccountInfo → Bytes → World → Result World
  dispatch verify_falcon_prepared program_id accounts payload w =
      process_verify_falcon_prepared accounts payload w >> ok w
  dispatch verify_falcon_raw program_id accounts payload w =
      process_verify_falcon_raw payload >> ok w
  dispatch verify_canonical_digest program_id accounts payload w =
      process_verify_canonical_digest payload >> ok w
  dispatch reconstruct_canonical_digest program_id accounts payload w =
      process_reconstruct_canonical_digest rt program_id accounts payload w
  dispatch initialize program_id accounts payload w =
      Initialize.process rt program_id accounts payload w
  dispatch execute program_id accounts payload w = Execute.process rt program_id accounts payload w
  dispatch rotate_ed25519_key program_id accounts payload w =
      process_rotate_ed25519 rt program_id accounts payload w
  dispatch rotate_falcon_key program_id accounts payload w =
      process_rotate_falcon rt program_id accounts payload w
  dispatch change_policy program_id accounts payload w =
      ChangePolicy.process rt program_id accounts payload w
  dispatch recover_account program_id accounts payload w =
      Recover.process rt program_id accounts payload w
  dispatch set_recovery_config program_id accounts payload w =
      process_set_recovery_config rt program_id accounts payload w
  dispatch initiate_social_recovery program_id accounts payload w =
      process_initiate_social_recovery rt program_id accounts payload w
  dispatch finalize_social_recovery program_id accounts payload w =
      process_finalize_social_recovery rt program_id accounts payload w
  dispatch cancel_social_recovery program_id accounts payload w =
      process_cancel_social_recovery rt program_id accounts payload w

  unfoldable pub process : Bytes → List AccountInfo → Bytes → World → Result World
  process program_id accounts instruction_data w = do
    parts ← ok_or (split_first instruction_data) malformed_instruction_data
    ix ← ok_or (from_u8 parts.0) malformed_instruction_data
    dispatch ix program_id accounts parts.1 w
