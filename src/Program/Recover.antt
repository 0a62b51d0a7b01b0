-- ===== src/Program/Recover.antt =====
-- program/src/recover.rs: `RecoverAccount`, the recovery flag and the Falcon-only rotation.
pub mod Effect
use Prim.Native.String.{String}
use solana_hybrid_pq_account.Base.{
  ℕ, ◌+◌, Bool, true, false, ◌||◌, Option, none, some, List, Bytes, length, ◌==◌, ◌==ᵇ◌,
}
use solana_hybrid_pq_account.Base.Layout.{zeros}
use solana_hybrid_pq_account.Core.Error.{
  Result, ok, ◌>>=◌, ◌>>◌, require, refuse, ok_or, invalid_account_data, malformed_instruction_data,
  unsupported_action,
}
use solana_hybrid_pq_account.Core.RecoveryOp.{RecoveryOp, enable, disable, rotate_ed25519}
use solana_hybrid_pq_account.Core.Intent.{Action, recover_account}
use solana_hybrid_pq_account.Core.Wire.{ExecuteIntentWire, execute_intent_wire_len, decode}
use solana_hybrid_pq_account.Core.Account.{
  try_from_bytes, set_nonce, recovery_enabled, set_recovery_enabled, set_owner_ed25519,
}
use solana_hybrid_pq_account.Core.Account.Slices.{owner_ed25519_from_slice}
use solana_hybrid_pq_account.Program.Runtime.{
  Runtime, World, Account, AccountInfo, set_content, two_accounts, three_accounts,
}
use solana_hybrid_pq_account.Program.Authorize.{Authorization, authorize, split_wire_and_falcon}
use solana_hybrid_pq_account.Program.SocialRecovery.{clear_pending_after_ed25519_owner_change}

unfoldable pub op_name : RecoveryOp → String
op_name enable = "enable"
op_name disable = "disable"
op_name rotate_ed25519 = "rotate-ed25519"

abbrev pub as_recover_account : Action → Option (RecoveryOp × Bytes)
as_recover_account (recover_account op new_ed25519) = some (op, new_ed25519)
as_recover_account _ = none

-- The `match op` of `apply_recovery`.
unfoldable pub apply_op : RecoveryOp → Bytes → Bytes → Result Bytes
apply_op enable new_ed25519 account = do
  refuse (recovery_enabled account) invalid_account_data
  ok (set_recovery_enabled true account)
apply_op disable new_ed25519 account = do
  require (recovery_enabled account) invalid_account_data
  ok (set_recovery_enabled false account)
apply_op rotate_ed25519 new_ed25519 account = ok (set_owner_ed25519 new_ed25519 account)

unfoldable pub apply_recovery :
    AccountInfo → RecoveryOp → Bytes → Authorization → World → Result World
apply_recovery hybrid op new_ed25519 auth w = do
  account ← try_from_bytes (w hybrid.key).content
  account₁ ← apply_op op new_ed25519 (set_nonce auth.next_nonce account)
  ok (set_content hybrid.key account₁ w)

module _ (rt : Runtime) where
  -- The first arm of the `match op` of `process`.
  unfoldable pub process_flag :
      Bytes
      → List AccountInfo
      → ExecuteIntentWire
      → Bytes
      → RecoveryOp
      → Bytes
      → World
      → Result World
  process_flag program_id accounts wire falcon_sig op new_ed25519 w = do
    acc ← ok_or (two_accounts accounts) malformed_instruction_data
    let hybrid = acc.0
    require hybrid.is_writable invalid_account_data
    require (new_ed25519 ==ᵇ zeros 32) invalid_account_data
    auth ← authorize rt program_id hybrid acc.1 wire falcon_sig w
    apply_recovery hybrid op new_ed25519 auth w

  -- The second arm.
  unfoldable pub process_rotate :
      Bytes → List AccountInfo → ExecuteIntentWire → Bytes → Bytes → World → Result World
  process_rotate program_id accounts wire falcon_sig new_ed25519 w = do
    acc ← ok_or (three_accounts accounts) malformed_instruction_data
    let hybrid = acc.0
    require hybrid.is_writable invalid_account_data
    current ← owner_ed25519_from_slice (w hybrid.key).content
    refuse (new_ed25519 ==ᵇ current || new_ed25519 ==ᵇ zeros 32) invalid_account_data
    auth ← authorize rt program_id hybrid acc.2 wire falcon_sig w
    w₁ ← apply_recovery hybrid rotate_ed25519 new_ed25519 auth w
    clear_pending_after_ed25519_owner_change rt program_id hybrid.key acc.1 w₁

  unfoldable pub process_op :
      Bytes
      → List AccountInfo
      → ExecuteIntentWire
      → Bytes
      → RecoveryOp
      → Bytes
      → World
      → Result World
  process_op program_id accounts wire falcon_sig rotate_ed25519 new_ed25519 w =
      process_rotate program_id accounts wire falcon_sig new_ed25519 w
  process_op program_id accounts wire falcon_sig op new_ed25519 w =
      process_flag program_id accounts wire falcon_sig op new_ed25519 w

  unfoldable pub process : Bytes → List AccountInfo → Bytes → World → Result World
  process program_id accounts payload w = do
    require (length payload == execute_intent_wire_len + 666) malformed_instruction_data
    parts ← split_wire_and_falcon payload
    wire ← decode parts.0
    recovery ← ok_or (as_recover_account wire.action) unsupported_action
    process_op program_id accounts wire parts.1 recovery.0 recovery.1 w
