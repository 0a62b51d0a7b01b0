-- ===== src/Tests/Runs.antt =====
-- Runs of whole instructions on the ledger of the fixture.
use solana_hybrid_pq_account.Core.Account
use solana_hybrid_pq_account.Core.Policy
use solana_hybrid_pq_account.Core.Recovery
use solana_hybrid_pq_account.Core.RecoveryOp
use solana_hybrid_pq_account.Program.ChangePolicy
use solana_hybrid_pq_account.Program.Execute
use solana_hybrid_pq_account.Program.Initialize
use solana_hybrid_pq_account.Program.Recover
use solana_hybrid_pq_account.Base.{Bool, true, List, Bytes, ◌≡◌, refl, [], ◌∷◌, ◌==ᵇ◌}
use solana_hybrid_pq_account.Base.Buffer.{slice, byte_at, write}
use solana_hybrid_pq_account.Base.Layout.{zeros}
use solana_hybrid_pq_account.Base.Words.{to_le_bytes, from_le_bytes}
use solana_hybrid_pq_account.Core.Account.{
  pda_seeds, set_nonce, nonce, set_policy, set_falcon_required_above, set_flags, flags,
  set_recovery_enabled, recovery_enabled, set_owner_ed25519, set_falcon_public_key_hash,
  set_prepared_falcon_public_key, initialize_without_falcon_key, set_version, set_bump,
  set_account_index,
}
use solana_hybrid_pq_account.Core.Account.Slices.{
  version_from_slice, nonce_from_slice, policy_from_slice, owner_ed25519_from_slice,
  prepared_falcon_public_key_from_slice, falcon_required_above_from_slice,
  recovery_enabled_from_slice, account_index_from_slice, falcon_public_key_hash_from_slice,
}
use solana_hybrid_pq_account.Core.Canonical.{canonical_preimage, write_body, write_context}
use solana_hybrid_pq_account.Core.Intent.{tag, is_privileged}
use solana_hybrid_pq_account.Core.Policy.{
  is_implemented, meet, above_threshold, signature_requirement,
}
use solana_hybrid_pq_account.Core.Recovery.{
  recovery_pda_seeds, social_recover_preimage, has_pending, clear_pending, pending_new_ed25519,
  pending_ready_slot, set_pending_new_ed25519, set_pending_ready_slot, delay_slots, set_delay_slots,
  set_guardian_ed25519, guardian_from_slice,
}
use solana_hybrid_pq_account.Core.Wire.{
  encode, encode_body, decode, from_wire, from_wire_arm, any_nonzero, reconstruct_intent,
}
use solana_hybrid_pq_account.Program.Authorize.{
  authorize, split_wire_and_falcon, effective_requirement, collect_ed25519, collect_falcon,
  collect_signatures, policy_eq, resulting_threshold,
}
use solana_hybrid_pq_account.Program.ChangePolicy.{apply_policy_change}
use solana_hybrid_pq_account.Program.Ed25519.{
  verify_ed25519_precompile, check_precompile_data, read_u16, slice_at,
}
use solana_hybrid_pq_account.Program.Evaluate.{evaluate_requirement}
use solana_hybrid_pq_account.Program.Execute.{
  process_action, process_transfer_sol, process_transfer_spl, bump_nonce, move_lamports,
}
use solana_hybrid_pq_account.Program.Falcon.{verify_falcon_prepared, verify_falcon_raw}
use solana_hybrid_pq_account.Program.Initialize.{
  parse, fund, create_pda_account, store_prepared_falcon_key,
}
use solana_hybrid_pq_account.Program.Pda.{derive, verify, signer_seeds}
use solana_hybrid_pq_account.Program.Processor.{dispatch}
use solana_hybrid_pq_account.Program.Reconstruct.{reconstruct_and_digest, digest_canonical_preimage}
use solana_hybrid_pq_account.Program.Recover.{
  process_op, process_flag, process_rotate, apply_recovery, apply_op,
}
use solana_hybrid_pq_account.Program.Rotate.{
  process_rotate_ed25519, process_rotate_falcon, apply_ed25519_rotation, apply_falcon_rotation,
}
use solana_hybrid_pq_account.Program.Runtime.{
  Runtime, World, AccountInfo, get_range, split_at_checked, checked_add, checked_sub, update,
  set_content, set_lamports, data_is_empty,
}
use solana_hybrid_pq_account.Program.SocialRecovery.{
  process_set_recovery_config, process_initiate_social_recovery, process_finalize_social_recovery,
  process_cancel_social_recovery, update_recovery_config, create_recovery_config,
  create_recovery_config_account, store_nonce, derive_recovery_config, verify_recovery_config_pda,
  clear_pending_after_ed25519_owner_change, recovery_signer_seeds,
}
use solana_hybrid_pq_account.Program.SplToken.{
  transfer_spl, is_supported_token_program, check_source, check_destination, mint_decimals,
  reject_if_transfer_hook, walk_tlv, account_type_at, transfer_checked_instruction,
}
use solana_hybrid_pq_account.Core.Error.{is_ok}
use solana_hybrid_pq_account.Core.Intent.{transfer_sol}
use solana_hybrid_pq_account.Core.Intent
use solana_hybrid_pq_account.Core.RecoveryOp.{rotate_ed25519, enable}
use solana_hybrid_pq_account.Program.Instruction.{
  DualKeyInstruction, execute, initialize, rotate_ed25519_key, rotate_falcon_key, change_policy,
  recover_account, set_recovery_config, initiate_social_recovery, finalize_social_recovery,
  cancel_social_recovery,
}
use solana_hybrid_pq_account.Tests.Fixture.{
  token_ledger, key, program_id, info, ledger, hybrid_bytes, config_bytes, runtime, payload,
  falcon_payload, initialize_payload,
}

unfoldable pub succeeds : Runtime → DualKeyInstruction → List AccountInfo → Bytes → World → Bool
unfolding dispatch Execute.process process_action process_transfer_sol process_transfer_spl
    bump_nonce move_lamports ChangePolicy.process apply_policy_change Recover.process process_op
    process_flag process_rotate apply_recovery apply_op process_rotate_ed25519 process_rotate_falcon
    apply_ed25519_rotation apply_falcon_rotation process_set_recovery_config
    process_initiate_social_recovery process_finalize_social_recovery process_cancel_social_recovery
    update_recovery_config create_recovery_config create_recovery_config_account store_nonce
    derive_recovery_config verify_recovery_config_pda clear_pending_after_ed25519_owner_change
    recovery_signer_seeds Initialize.process parse fund create_pda_account store_prepared_falcon_key
    derive verify signer_seeds transfer_spl is_supported_token_program check_source
    check_destination mint_decimals reject_if_transfer_hook walk_tlv account_type_at
    transfer_checked_instruction authorize split_wire_and_falcon effective_requirement
    collect_ed25519 collect_falcon collect_signatures policy_eq resulting_threshold
    evaluate_requirement verify_falcon_prepared verify_falcon_raw verify_ed25519_precompile
    check_precompile_data read_u16 slice_at get_range split_at_checked checked_add checked_sub
    update set_content set_lamports data_is_empty reconstruct_and_digest digest_canonical_preimage
    canonical_preimage write_body write_context encode encode_body decode from_wire from_wire_arm
    any_nonzero reconstruct_intent tag is_privileged RecoveryOp.from_u8 RecoveryOp.as_u8
    Policy.from_u8 Policy.as_u8 is_implemented meet above_threshold signature_requirement pda_seeds
    recovery_pda_seeds social_recover_preimage has_pending clear_pending pending_new_ed25519
    pending_ready_slot set_pending_new_ed25519 set_pending_ready_slot delay_slots set_delay_slots
    set_guardian_ed25519 guardian_from_slice Recovery.try_from_bytes Recovery.initialize
    Account.try_from_bytes set_nonce nonce set_policy set_falcon_required_above set_flags flags
    set_recovery_enabled recovery_enabled set_owner_ed25519 set_falcon_public_key_hash
    set_prepared_falcon_public_key initialize_without_falcon_key set_version set_bump
    set_account_index version_from_slice nonce_from_slice policy_from_slice owner_ed25519_from_slice
    prepared_falcon_public_key_from_slice falcon_required_above_from_slice
    recovery_enabled_from_slice account_index_from_slice falcon_public_key_hash_from_slice slice
    byte_at write zeros to_le_bytes from_le_bytes ◌==ᵇ◌
succeeds rt ix accounts payload w = is_ok (dispatch rt ix program_id accounts payload w)

pub transfer_sol_runs :
    succeeds
      (runtime 10)
      execute
      (info 1 ∷ info 2 ∷ info 3 ∷ [])
      (payload (transfer_sol (key 2) 1000))
      (ledger (hybrid_bytes 2 0 41) [])
    ≡ true
unfolding succeeds
transfer_sol_runs = refl

pub change_policy_runs :
    succeeds
      (runtime 10)
      change_policy
      (info 1 ∷ info 3 ∷ [])
      (payload (Intent.change_policy 5 700))
      (ledger (hybrid_bytes 2 0 41) [])
    ≡ true
unfolding succeeds
change_policy_runs = refl

pub rotate_ed25519_runs :
    succeeds
      (runtime 10)
      rotate_ed25519_key
      (info 1 ∷ info 4 ∷ info 3 ∷ [])
      (payload (Intent.rotate_ed25519_key (key 20)))
      (ledger (hybrid_bytes 2 0 41) (config_bytes 50 (key 21) 60))
    ≡ true
unfolding succeeds
rotate_ed25519_runs = refl

pub rotate_falcon_runs :
    succeeds
      (runtime 10)
      rotate_falcon_key
      (info 1 ∷ info 3 ∷ [])
      (falcon_payload (Intent.rotate_falcon_key (key 5)))
      (ledger (hybrid_bytes 2 0 41) [])
    ≡ true
unfolding succeeds
rotate_falcon_runs = refl

pub recover_rotate_runs :
    succeeds
      (runtime 10)
      recover_account
      (info 1 ∷ info 4 ∷ info 3 ∷ [])
      (payload (Intent.recover_account rotate_ed25519 (key 20)))
      (ledger (hybrid_bytes 2 1 41) [])
    ≡ true
unfolding succeeds
recover_rotate_runs = refl

pub recover_enable_runs :
    succeeds
      (runtime 10)
      recover_account
      (info 1 ∷ info 3 ∷ [])
      (payload (Intent.recover_account enable (key 0)))
      (ledger (hybrid_bytes 2 0 41) [])
    ≡ true
unfolding succeeds
recover_enable_runs = refl

pub initiate_runs :
    succeeds
      (runtime 10)
      initiate_social_recovery
      (info 1 ∷ info 4 ∷ info 3 ∷ [])
      (key 20)
      (ledger (hybrid_bytes 2 1 41) (config_bytes 50 (key 0) 0))
    ≡ true
unfolding succeeds
initiate_runs = refl

pub finalize_runs :
    succeeds
      (runtime 70)
      finalize_social_recovery
      (info 1 ∷ info 4 ∷ [])
      ([])
      (ledger (hybrid_bytes 2 1 41) (config_bytes 50 (key 20) 60))
    ≡ true
unfolding succeeds
finalize_runs = refl

pub cancel_runs :
    succeeds
      (runtime 10)
      cancel_social_recovery
      (info 1 ∷ info 4 ∷ info 3 ∷ [])
      (payload Intent.cancel_social_recovery)
      (ledger (hybrid_bytes 2 1 41) (config_bytes 50 (key 20) 60))
    ≡ true
unfolding succeeds
cancel_runs = refl

pub set_config_runs :
    succeeds
      (runtime 10)
      set_recovery_config
      (info 1 ∷ info 4 ∷ info 2 ∷ info 11 ∷ info 3 ∷ [])
      (payload (Intent.set_recovery_config (key 22) 80))
      (ledger (hybrid_bytes 2 0 41) (config_bytes 50 (key 0) 0))
    ≡ true
unfolding succeeds
set_config_runs = refl

pub initialize_runs :
    succeeds
      (runtime 10)
      initialize
      (info 2 ∷ info 4 ∷ info 11 ∷ [])
      (initialize_payload)
      (ledger [] [])
    ≡ true
unfolding succeeds
initialize_runs = refl

pub transfer_spl_runs :
    succeeds
      (runtime 10)
      execute
      (info 1 ∷ info 2 ∷ info 21 ∷ info 23 ∷ info 22 ∷ info 12 ∷ info 3 ∷ [])
      (payload (Intent.transfer_spl (key 22) 300))
      token_ledger
    ≡ true
unfolding succeeds
transfer_spl_runs = refl
