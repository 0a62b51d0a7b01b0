-- ===== src/Program/Authorize.antt =====
-- program/src/authorize.rs: authorization under the effective signature requirement.
pub mod Requirement
pub mod Sound
use solana_hybrid_pq_account.Base.{
  ℕ, Bool, true, false, Option, none, some, Bytes, length, ltb, ◌==◌, if◌then◌else◌, ◌≡◌, arith,
  take, drop,
}
use solana_hybrid_pq_account.Core.Error.{
  Result, ok, err, ◌>>=◌, ◌>>◌, require, refuse, ok_or, is_ok, invalid_account_data,
  policy_not_implemented, malformed_instruction_data, intent_expired, invalid_nonce, math_overflow,
}
use solana_hybrid_pq_account.Core.RecoveryOp.{rotate_ed25519}
use solana_hybrid_pq_account.Core.Intent.{Action, recover_account, change_policy}
use solana_hybrid_pq_account.Core.Wire.{ExecuteIntentWire, IntentContext, execute_intent_wire_len}
use solana_hybrid_pq_account.Core.Policy.{
  SignatureRequirement, either, ed25519, falcon, both, meet, AuthorizationPolicy,
  falcon_above_threshold, from_u8, as_u8, is_implemented, signature_requirement,
}
use solana_hybrid_pq_account.Core.Account.Slices.{
  owner_ed25519_from_slice, policy_from_slice, prepared_falcon_public_key_from_slice,
  nonce_from_slice, falcon_required_above_from_slice, recovery_enabled_from_slice,
}
use solana_hybrid_pq_account.Program.Runtime.{
  Runtime, World, AccountInfo, checked_add, split_at_checked,
}
use solana_hybrid_pq_account.Program.Ed25519.{verify_ed25519_precompile}
use solana_hybrid_pq_account.Program.Falcon.{verify_falcon_prepared}
use solana_hybrid_pq_account.Program.Evaluate.{SignatureValidity, evaluate_requirement}
use solana_hybrid_pq_account.Program.Reconstruct.{reconstruct_and_digest}

pub record Authorization : Type 0 where
  pub digest : Bytes
  pub policy : AuthorizationPolicy
  pub account_nonce : ℕ
  pub next_nonce : ℕ

-- The derived `==` of policies.
unfoldable pub policy_eq : AuthorizationPolicy → AuthorizationPolicy → Bool
unfolding as_u8
policy_eq p q = as_u8 p == as_u8 q

-- The threshold that a change to `target` would store.
unfoldable pub resulting_threshold : AuthorizationPolicy → ℕ → Option ℕ
unfolding policy_eq
resulting_threshold target threshold =
    if policy_eq target falcon_above_threshold then some threshold else none

unfoldable pub effective_requirement :
    AuthorizationPolicy → Option ℕ → Bool → Action → Result SignatureRequirement
effective_requirement current threshold enabled (recover_account rotate_ed25519 _) = do
  require enabled invalid_account_data
  ok falcon
effective_requirement current threshold enabled (change_policy new_policy new_threshold) = do
  target ← ok_or (from_u8 new_policy) invalid_account_data
  require (is_implemented target) policy_not_implemented
  let action = change_policy new_policy new_threshold
  let current_req = signature_requirement current action threshold
  let target_req = signature_requirement target action (resulting_threshold target new_threshold)
  ok (meet current_req target_req)
effective_requirement current threshold enabled action =
    ok (signature_requirement current action threshold)

module _ (rt : Runtime) where
  -- The two matches of `collect_signatures`.
  unfoldable pub collect_ed25519 : SignatureRequirement → AccountInfo → Bytes → Bytes → Result Bool
  collect_ed25519 falcon sysvar owner digest = ok false
  collect_ed25519 either sysvar owner digest =
      ok (is_ok (verify_ed25519_precompile rt sysvar owner digest))
  collect_ed25519 _ sysvar owner digest = do
    verify_ed25519_precompile rt sysvar owner digest
    ok true

  unfoldable pub collect_falcon : SignatureRequirement → Bytes → Bytes → Bytes → Result Bool
  collect_falcon ed25519 prepared digest falcon_sig = ok false
  collect_falcon either prepared digest falcon_sig =
      ok (is_ok (verify_falcon_prepared rt prepared digest falcon_sig))
  collect_falcon _ prepared digest falcon_sig = do
    verify_falcon_prepared rt prepared digest falcon_sig
    ok true

  unfoldable pub collect_signatures :
      SignatureRequirement → AccountInfo → Bytes → Bytes → Bytes → Bytes → Result SignatureValidity
  collect_signatures req sysvar owner prepared digest falcon_sig = do
    e ← collect_ed25519 req sysvar owner digest
    f ← collect_falcon req prepared digest falcon_sig
    ok (record { ed25519_valid = e; falcon_valid = f })

  unfoldable pub authorize :
      Bytes → AccountInfo → AccountInfo → ExecuteIntentWire → Bytes → World → Result Authorization
  authorize program_id hybrid sysvar wire falcon_sig w = do
    require (length falcon_sig == 666) malformed_instruction_data
    slot ← ok_or rt.clock_slot invalid_account_data
    refuse (ltb wire.expiry_slot slot) intent_expired
    found ← reconstruct_and_digest rt program_id hybrid wire w
    let content = (w hybrid.key).content
    policy ← policy_from_slice content
    owner ← owner_ed25519_from_slice content
    prepared ← prepared_falcon_public_key_from_slice content
    account_nonce ← nonce_from_slice content
    threshold ← falcon_required_above_from_slice content
    enabled ← recovery_enabled_from_slice content
    require (found.1.nonce == account_nonce) invalid_nonce
    next_nonce ← ok_or (checked_add account_nonce 1) math_overflow
    req ← effective_requirement policy threshold enabled wire.action
    sigs ← collect_signatures req sysvar owner prepared found.0 falcon_sig
    evaluate_requirement req sigs
    ok (record {
      digest = found.0;
      policy = policy;
      account_nonce = account_nonce;
      next_nonce = next_nonce;
    })

unfoldable pub split_wire_and_falcon : Bytes → Result (Bytes × Bytes)
split_wire_and_falcon payload =
    ok_or (split_at_checked execute_intent_wire_len payload) malformed_instruction_data

-- A payload of the right length is cut into the fragment and the signature.
pub split_wire_and_falcon_lem :
    (payload : Bytes)
    → length payload ≡ 715
    → split_wire_and_falcon payload ≡ ok (take 49 payload, drop 49 payload)
unfolding split_wire_and_falcon split_at_checked
split_wire_and_falcon_lem payload size = ground arith
