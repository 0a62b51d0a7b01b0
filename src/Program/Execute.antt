-- ===== src/Program/Execute.antt =====
-- program/src/execute.rs: `Execute`, which authorizes an intent, consumes the nonce and then
-- transfers lamports or tokens.
pub mod Transfer
pub mod Transferred
pub mod Tokens
use solana_hybrid_pq_account.Base.{
  ℕ, ◌+◌, Bool, not, ◌||◌, Option, none, some, List, [], ◌∷◌, Bytes, length, ltb, ◌==◌, ◌==ᵇ◌,
  if◌then◌else◌,
}
use solana_hybrid_pq_account.Core.Error.{
  Result, ok, err, ◌>>=◌, ◌>>◌, require, refuse, ok_or, invalid_account_data,
  malformed_instruction_data, unsupported_action, insufficient_funds, math_overflow,
}
use solana_hybrid_pq_account.Core.Intent.{Action, transfer_sol, transfer_spl}
use solana_hybrid_pq_account.Core.Wire.{ExecuteIntentWire, execute_intent_wire_len, decode}
use solana_hybrid_pq_account.Core.Account.{account_data_len, try_from_bytes, set_nonce}
use solana_hybrid_pq_account.Program.Runtime.{
  Runtime, World, Account, AccountInfo, set_content, set_lamports, checked_add, checked_sub,
  three_accounts,
}
use solana_hybrid_pq_account.Program.Authorize.{authorize, split_wire_and_falcon}
use solana_hybrid_pq_account.Program.SplToken.{TransferSplAccounts}
use solana_hybrid_pq_account.Program.SplToken

abbrev pub execute_payload_len : ℕ
execute_payload_len = execute_intent_wire_len + 666

unfoldable pub bump_nonce : AccountInfo → ℕ → World → Result World
bump_nonce hybrid next_nonce w = do
  account ← try_from_bytes (w hybrid.key).content
  ok (set_content hybrid.key (set_nonce next_nonce account) w)

abbrev pub spl_accounts : List AccountInfo → Option TransferSplAccounts
spl_accounts (a ∷ b ∷ c ∷ d ∷ e ∷ f ∷ g ∷ []) = some (record {
  hybrid_account = a;
  creator = b;
  source = c;
  mint = d;
  destination = e;
  token_program = f;
  instructions_sysvar = g;
})
spl_accounts _ = none

module _ (rt : Runtime) where
  -- `transfer_sol`; both balances are borrowed before either is written.
  unfoldable pub move_lamports : AccountInfo → AccountInfo → ℕ → World → Result World
  move_lamports hybrid recipient amount w = if amount == 0 then ok w else (do
    minimum_balance ← ok_or rt.minimum_balance invalid_account_data
    remaining ← ok_or (checked_sub (w hybrid.key).lamports amount) insufficient_funds
    refuse (ltb remaining (minimum_balance account_data_len)) insufficient_funds
    to ← ok_or (checked_add (w recipient.key).lamports amount) math_overflow
    ok (set_lamports recipient.key to (set_lamports hybrid.key remaining w)))

  unfoldable pub process_transfer_sol :
      Bytes → List AccountInfo → ExecuteIntentWire → Bytes → Bytes → ℕ → World → Result World
  process_transfer_sol program_id accounts wire falcon_sig expected_recipient lamports w = do
    acc ← ok_or (three_accounts accounts) malformed_instruction_data
    let hybrid = acc.0
    let recipient = acc.1
    let sysvar = acc.2
    refuse (not hybrid.is_writable || not recipient.is_writable) invalid_account_data
    require (recipient.key ==ᵇ expected_recipient) invalid_account_data
    refuse (recipient.key ==ᵇ hybrid.key) invalid_account_data
    auth ← authorize rt program_id hybrid sysvar wire falcon_sig w
    w₁ ← bump_nonce hybrid auth.next_nonce w
    move_lamports hybrid recipient lamports w₁

  unfoldable pub process_transfer_spl :
      Bytes → List AccountInfo → ExecuteIntentWire → Bytes → Bytes → ℕ → World → Result World
  process_transfer_spl program_id accounts wire falcon_sig expected_destination amount w = do
    acc ← ok_or (spl_accounts accounts) malformed_instruction_data
    let hybrid = acc.hybrid_account
    require hybrid.is_writable invalid_account_data
    auth ← authorize rt program_id hybrid acc.instructions_sysvar wire falcon_sig w
    w₁ ← bump_nonce hybrid auth.next_nonce w
    SplToken.transfer_spl rt program_id acc amount expected_destination w₁

  -- The `match wire.action` of `process`.
  unfoldable pub process_action :
      Bytes → List AccountInfo → ExecuteIntentWire → Bytes → Action → World → Result World
  process_action program_id accounts wire falcon_sig (transfer_sol recipient lamports) w =
      process_transfer_sol program_id accounts wire falcon_sig recipient lamports w
  process_action program_id accounts wire falcon_sig (transfer_spl destination amount) w =
      process_transfer_spl program_id accounts wire falcon_sig destination amount w
  process_action program_id accounts wire falcon_sig _ w = err unsupported_action

  unfoldable pub process : Bytes → List AccountInfo → Bytes → World → Result World
  process program_id accounts payload w = do
    require (length payload == execute_payload_len) malformed_instruction_data
    parts ← split_wire_and_falcon payload
    wire ← decode parts.0
    process_action program_id accounts wire parts.1 wire.action w
