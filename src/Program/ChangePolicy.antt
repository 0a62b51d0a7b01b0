-- ===== src/Program/ChangePolicy.antt =====
-- program/src/change_policy.rs: `ChangePolicy`, under the stricter of both policies.
pub mod Effect
use solana_hybrid_pq_account.Base.{
  ℕ, ◌+◌, Bool, true, false, ◌&&◌, Option, none, some, List, Bytes, length, ◌==◌,
}
use solana_hybrid_pq_account.Core.Error.{
  Result, ok, ◌>>=◌, ◌>>◌, require, refuse, ok_or, invalid_account_data, malformed_instruction_data,
  unsupported_action, policy_not_implemented,
}
use solana_hybrid_pq_account.Core.Intent.{Action, change_policy}
use solana_hybrid_pq_account.Core.Policy.{AuthorizationPolicy, from_u8, is_implemented}
use solana_hybrid_pq_account.Core.Wire.{execute_intent_wire_len, decode}
use solana_hybrid_pq_account.Core.Account.{
  try_from_bytes, set_nonce, set_policy, set_falcon_required_above,
}
use solana_hybrid_pq_account.Core.Account.Slices.{
  policy_from_slice, falcon_required_above_from_slice,
}
use solana_hybrid_pq_account.Program.Runtime.{
  Runtime, World, Account, AccountInfo, set_content, two_accounts,
}
use solana_hybrid_pq_account.Program.Authorize.{
  Authorization, authorize, split_wire_and_falcon, policy_eq, resulting_threshold,
}

-- The derived `==` on `Option<u64>`.
abbrev pub threshold_eq : Option ℕ → Option ℕ → Bool
threshold_eq none none = true
threshold_eq (some a) (some b) = a == b
threshold_eq _ _ = false

abbrev pub as_change_policy : Action → Option (ℕ × ℕ)
as_change_policy (change_policy new_policy threshold) = some (new_policy, threshold)
as_change_policy _ = none

unfoldable pub apply_policy_change :
    AccountInfo → AuthorizationPolicy → Option ℕ → Authorization → World → Result World
apply_policy_change hybrid target threshold auth w = do
  a ← try_from_bytes (w hybrid.key).content
  let a₁ = set_nonce auth.next_nonce a
  let a₂ = set_policy target a₁
  ok (set_content hybrid.key (set_falcon_required_above threshold a₂) w)

module _ (rt : Runtime) where
  unfoldable pub process : Bytes → List AccountInfo → Bytes → World → Result World
  unfolding policy_eq
  process program_id accounts payload w = do
    require (length payload == execute_intent_wire_len + 666) malformed_instruction_data
    acc ← ok_or (two_accounts accounts) malformed_instruction_data
    let hybrid = acc.0
    require hybrid.is_writable invalid_account_data
    parts ← split_wire_and_falcon payload
    wire ← decode parts.0
    change ← ok_or (as_change_policy wire.action) unsupported_action
    target ← ok_or (from_u8 change.0) invalid_account_data
    require (is_implemented target) policy_not_implemented
    let threshold = resulting_threshold target change.1
    current ← policy_from_slice (w hybrid.key).content
    current_threshold ← falcon_required_above_from_slice (w hybrid.key).content
    refuse (policy_eq current target && threshold_eq current_threshold threshold)
        invalid_account_data
    auth ← authorize rt program_id hybrid acc.1 wire parts.1 w
    apply_policy_change hybrid target threshold auth w
