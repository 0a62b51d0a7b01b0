-- ===== src/Client/Onchain/Lifecycle.antt =====
-- client/src/onchain.rs: the builders of the instructions that change keys, the policy and the
-- recovery of an account.
use solana_hybrid_pq_account.Base.{
  ℕ, ◌+◌, Bool, true, false, Option, none, some, List, [], ◌∷◌, ◌++◌, Bytes, length, ◌==◌,
}
use solana_hybrid_pq_account.Core.RecoveryOp.{RecoveryOp, enable, disable, rotate_ed25519}
use solana_hybrid_pq_account.Core.Intent.{
  Action, rotate_ed25519_key, rotate_falcon_key, change_policy, recover_account,
  set_recovery_config, cancel_social_recovery, AuthorizationIntent,
}
use solana_hybrid_pq_account.Core.Wire.{execute_intent_wire_len}
use solana_hybrid_pq_account.Program.Runtime.{Runtime, Instruction, AccountMeta}
use solana_hybrid_pq_account.Client.Error.{
  Result, ok, ◌>>=◌, ◌>>◌, require, ok_or, key_file_length, intent_format,
}
use solana_hybrid_pq_account.Client.Onchain.{
  writable_meta, readonly_meta, encode_execute_intent_wire, check_sig,
}

abbrev pub rotate_ed25519_discriminator : ℕ
rotate_ed25519_discriminator = 2

abbrev pub rotate_falcon_discriminator : ℕ
rotate_falcon_discriminator = 3

abbrev pub change_policy_discriminator : ℕ
change_policy_discriminator = 4

abbrev pub recover_account_discriminator : ℕ
recover_account_discriminator = 5

abbrev pub set_recovery_config_discriminator : ℕ
set_recovery_config_discriminator = 6

abbrev pub initiate_social_recovery_discriminator : ℕ
initiate_social_recovery_discriminator = 7

abbrev pub finalize_social_recovery_discriminator : ℕ
finalize_social_recovery_discriminator = 8

abbrev pub cancel_social_recovery_discriminator : ℕ
cancel_social_recovery_discriminator = 9

abbrev pub rotate_falcon_data_len : ℕ
rotate_falcon_data_len = 1 + execute_intent_wire_len + 666 + 897 + 666

-- The matches on the action.
abbrev pub is_rotate_ed25519_key : Action → Bool
is_rotate_ed25519_key (rotate_ed25519_key _) = true
is_rotate_ed25519_key _ = false

abbrev pub is_rotate_falcon_key : Action → Bool
is_rotate_falcon_key (rotate_falcon_key _) = true
is_rotate_falcon_key _ = false

abbrev pub is_change_policy : Action → Bool
is_change_policy (change_policy _ _) = true
is_change_policy _ = false

abbrev pub recovery_op_of : Action → Option RecoveryOp
recovery_op_of (recover_account op _) = some op
recovery_op_of _ = none

abbrev pub is_set_recovery_config : Action → Bool
is_set_recovery_config (set_recovery_config _ _) = true
is_set_recovery_config _ = false

abbrev pub is_cancel_social_recovery : Action → Bool
is_cancel_social_recovery cancel_social_recovery = true
is_cancel_social_recovery _ = false

-- `encode_auth_payload`; three builders write it out.
unfoldable pub encode_auth_payload : AuthorizationIntent → Bytes → Result Bytes
unfolding encode_execute_intent_wire
encode_auth_payload intent falcon_sig = do
  check_sig "falcon signature" falcon_sig
  ok (encode_execute_intent_wire intent ++ falcon_sig)

module _ (rt : Runtime) (program_id hybrid_account : Bytes) where
  -- The hybrid account and the sysvar.
  abbrev sysvar_metas : List AccountMeta
  sysvar_metas =
      writable_meta hybrid_account false ∷ readonly_meta rt.instructions_sysvar_id false ∷ []

  -- With the recovery config between them.
  abbrev config_metas : Bytes → List AccountMeta
  config_metas recovery_config =
      writable_meta hybrid_account false
      ∷ writable_meta recovery_config false
      ∷ readonly_meta rt.instructions_sysvar_id false
      ∷ []

  unfoldable pub rotate_ed25519_instruction :
      Bytes → AuthorizationIntent → Bytes → Result Instruction
  unfolding encode_auth_payload
  rotate_ed25519_instruction recovery_config intent falcon_sig = do
    require (is_rotate_ed25519_key intent.action)
        (intent_format "rotate_ed25519" "intent action must be RotateEd25519Key")
    bytes ← encode_auth_payload intent falcon_sig
    ok (record {
      program = program_id;
      metas = config_metas recovery_config;
      payload = rotate_ed25519_discriminator ∷ bytes;
    })

  unfoldable pub rotate_falcon_instruction :
      AuthorizationIntent → Bytes → Bytes → Bytes → Result Instruction
  unfolding encode_execute_intent_wire
  rotate_falcon_instruction intent falcon_auth_sig new_wire_pubkey falcon_pop_sig = do
    require (is_rotate_falcon_key intent.action)
        (intent_format "rotate_falcon" "intent action must be RotateFalconKey")
    check_sig "falcon auth signature" falcon_auth_sig
    require (length new_wire_pubkey == 897)
        (key_file_length "falcon512.pk" 897 (length new_wire_pubkey))
    check_sig "falcon pop signature" falcon_pop_sig
    ok (record {
      program = program_id;
      metas = sysvar_metas;
      payload =
          rotate_falcon_discriminator ∷ encode_execute_intent_wire intent
          ++ falcon_auth_sig
          ++ new_wire_pubkey
          ++ falcon_pop_sig;
    })

  unfoldable pub change_policy_instruction : AuthorizationIntent → Bytes → Result Instruction
  unfolding encode_auth_payload
  change_policy_instruction intent falcon_sig = do
    require (is_change_policy intent.action)
        (intent_format "change_policy" "intent action must be ChangePolicy")
    bytes ← encode_auth_payload intent falcon_sig
    ok (record {
      program = program_id;
      metas = sysvar_metas;
      payload = change_policy_discriminator ∷ bytes;
    })

  -- The `match op` of `recover_account_instruction`.
  unfoldable pub recover_metas : RecoveryOp → Option Bytes → Result (List AccountMeta)
  recover_metas rotate_ed25519 recovery_config = do
    recovery ← ok_or recovery_config (
        intent_format "recovery_config" "RecoverAccount RotateEd25519 requires recovery_config PDA")
    ok (config_metas recovery)
  recover_metas enable recovery_config = ok sysvar_metas
  recover_metas disable recovery_config = ok sysvar_metas

  unfoldable pub recover_account_instruction :
      AuthorizationIntent → Bytes → Option Bytes → Result Instruction
  unfolding encode_auth_payload recover_metas
  recover_account_instruction intent falcon_sig recovery_config = do
    op ←
        ok_or (recovery_op_of intent.action)
          (intent_format "recover_account" "intent action must be RecoverAccount")
    bytes ← encode_auth_payload intent falcon_sig
    metas ← recover_metas op recovery_config
    ok (record {
      program = program_id;
      metas = metas;
      payload = recover_account_discriminator ∷ bytes;
    })

  unfoldable pub set_recovery_config_instruction :
      Bytes → Bytes → AuthorizationIntent → Bytes → Result Instruction
  unfolding encode_auth_payload
  set_recovery_config_instruction recovery_config payer intent falcon_sig = do
    require (is_set_recovery_config intent.action)
        (intent_format "set_recovery_config" "intent action must be SetRecoveryConfig")
    bytes ← encode_auth_payload intent falcon_sig
    ok (record {
      program = program_id;
      metas =
          writable_meta hybrid_account false
          ∷ writable_meta recovery_config false
          ∷ writable_meta payer true
          ∷ readonly_meta rt.system_program_id false
          ∷ readonly_meta rt.instructions_sysvar_id false
          ∷ [];
      payload = set_recovery_config_discriminator ∷ bytes;
    })

  unfoldable pub initiate_social_recovery_instruction : Bytes → Bytes → Instruction
  initiate_social_recovery_instruction recovery_config new_ed25519 = record {
    program = program_id;
    metas =
        readonly_meta hybrid_account false
        ∷ writable_meta recovery_config false
        ∷ readonly_meta rt.instructions_sysvar_id false
        ∷ [];
    payload = initiate_social_recovery_discriminator ∷ new_ed25519;
  }

  unfoldable pub finalize_social_recovery_instruction : Bytes → Instruction
  finalize_social_recovery_instruction recovery_config = record {
    program = program_id;
    metas = writable_meta hybrid_account false ∷ writable_meta recovery_config false ∷ [];
    payload = finalize_social_recovery_discriminator ∷ [];
  }

  unfoldable pub cancel_social_recovery_instruction :
      Bytes → AuthorizationIntent → Bytes → Result Instruction
  unfolding encode_auth_payload
  cancel_social_recovery_instruction recovery_config intent falcon_sig = do
    require (is_cancel_social_recovery intent.action)
        (intent_format "cancel_social_recovery" "intent action must be CancelSocialRecovery")
    bytes ← encode_auth_payload intent falcon_sig
    ok (record {
      program = program_id;
      metas = config_metas recovery_config;
      payload = cancel_social_recovery_discriminator ∷ bytes;
    })
