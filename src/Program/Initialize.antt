-- ===== src/Program/Initialize.antt =====
-- program/src/initialize.rs: `Initialize`, which creates and fills a hybrid account.
pub mod Effect
use solana_hybrid_pq_account.Base.{
  ℕ, ◌+◌, ◌-◌, Bool, List, [], ◌∷◌, Bytes, length, ltb, ◌==◌, ◌==ᵇ◌, if◌then◌else◌,
}
use solana_hybrid_pq_account.Base.Buffer.{slice, byte_at}
use solana_hybrid_pq_account.Base.Words.{from_le_bytes}
use solana_hybrid_pq_account.Core.Error.{
  Result, ok, ◌>>=◌, ◌>>◌, require, ok_or, invalid_account_data, malformed_instruction_data,
  policy_rejected, policy_not_implemented, missing_signer, invalid_program_account,
  account_already_initialized, insufficient_funds, malformed_falcon,
}
use solana_hybrid_pq_account.Core.Policy.{AuthorizationPolicy, from_u8, is_implemented}
use solana_hybrid_pq_account.Core.Account.{
  account_data_len, initialize_without_falcon_key, set_prepared_falcon_public_key,
}
use solana_hybrid_pq_account.Program.Runtime.{
  Runtime, World, Account, AccountInfo, set_content, data_is_empty, three_accounts, system_transfer,
  system_allocate, system_assign,
}
use solana_hybrid_pq_account.Program.Pda.{verify, signer_seeds}

abbrev pub initialize_payload_len : ℕ
initialize_payload_len = 934

pub record Args : Type 0 where
  pub account_index : ℕ
  pub owner_ed25519 : Bytes
  pub policy : AuthorizationPolicy
  pub falcon_wire_pubkey : Bytes

unfoldable pub parse : Bytes → Result Args
parse payload = do
  require (length payload == initialize_payload_len) malformed_instruction_data
  policy ← ok_or (from_u8 (byte_at 36 payload)) policy_rejected
  require (is_implemented policy) policy_not_implemented
  ok (record {
    account_index = from_le_bytes (slice 0 4 payload);
    owner_ed25519 = slice 4 32 payload;
    policy = policy;
    falcon_wire_pubkey = slice 37 897 payload;
  })

module _ (rt : Runtime) where
  -- The transfer of the shortfall, if there is one.
  unfoldable pub fund : Bytes → Bytes → ℕ → List Bytes → World → Result World
  fund creator hybrid shortfall seeds w =
      if ltb 0 shortfall
      then ok_or (rt.invoke_signed (system_transfer creator hybrid shortfall) (seeds ∷ []) w)
          insufficient_funds
      else ok w

  unfoldable pub create_pda_account : Bytes → Bytes → Bytes → ℕ → ℕ → World → Result World
  create_pda_account program_id creator hybrid account_index bump w = do
    minimum_balance ← ok_or rt.minimum_balance invalid_account_data
    let seeds = signer_seeds creator account_index bump
    w₁ ← fund creator hybrid (minimum_balance account_data_len - (w hybrid).lamports) seeds w
    w₂ ←
        ok_or (rt.invoke_signed (system_allocate hybrid account_data_len) (seeds ∷ []) w₁)
          account_already_initialized
    ok_or (rt.invoke_signed (system_assign hybrid program_id) (seeds ∷ []) w₂)
        invalid_program_account

  unfoldable pub store_prepared_falcon_key : Bytes → Bytes → Result Bytes
  store_prepared_falcon_key account falcon_wire_pubkey = do
    pubkey ← ok_or (rt.pubkey_from_slice falcon_wire_pubkey) malformed_falcon
    prepared ← ok_or (rt.try_prepare_pubkey pubkey) malformed_falcon
    ok (set_prepared_falcon_public_key prepared account)

  unfoldable pub process : Bytes → List AccountInfo → Bytes → World → Result World
  process program_id accounts payload w = do
    args ← parse payload
    acc ← ok_or (three_accounts accounts) malformed_instruction_data
    let creator = acc.0
    let hybrid = acc.1
    let system_program = acc.2
    require creator.is_signer missing_signer
    require (system_program.key ==ᵇ rt.system_program_id) invalid_program_account
    bump ← verify rt program_id creator.key args.account_index hybrid.key
    require (data_is_empty (w hybrid.key)) account_already_initialized
    let hash = rt.sha256 args.falcon_wire_pubkey
    w₁ ← create_pda_account program_id creator.key hybrid.key args.account_index bump w
    account ←
        initialize_without_falcon_key (w₁ hybrid.key).content bump args.account_index
          args.owner_ed25519 hash args.policy
    account₁ ← store_prepared_falcon_key account args.falcon_wire_pubkey
    ok (set_content hybrid.key account₁ w₁)
