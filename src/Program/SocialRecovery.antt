-- ===== src/Program/SocialRecovery.antt =====
-- program/src/social_recovery.rs: the guardian's timelocked proposal of a new owner.
pub mod Initiate
pub mod Owner
pub mod Finalize
pub mod Timelock
pub mod Reconfigure
pub mod Cancel
pub mod Replace
pub mod Trace
use solana_hybrid_pq_account.Base.{
  ℕ, ◌+◌, Bool, not, ◌||◌, Option, none, some, List, [], ◌∷◌, Bytes, length, ltb, ◌==◌, ◌==ᵇ◌,
  if◌then◌else◌,
}
use solana_hybrid_pq_account.Base.Layout.{zeros}
use solana_hybrid_pq_account.Core.Error.{
  Result, ok, err, ◌>>=◌, ◌>>◌, require, refuse, ok_or, invalid_account_data, invalid_pda,
  malformed_instruction_data, unsupported_action, missing_signer, invalid_program_account,
  account_already_initialized, insufficient_funds, intent_expired, math_overflow,
}
use solana_hybrid_pq_account.Core.Intent.{Action, set_recovery_config, cancel_social_recovery}
use solana_hybrid_pq_account.Core.Wire.{execute_intent_wire_len, decode}
use solana_hybrid_pq_account.Core.Account
use solana_hybrid_pq_account.Core.Account.{account_data_len, set_nonce, nonce, set_owner_ed25519}
use solana_hybrid_pq_account.Core.Account.Slices.{
  owner_ed25519_from_slice, nonce_from_slice, recovery_enabled_from_slice,
}
use solana_hybrid_pq_account.Core.Recovery
use solana_hybrid_pq_account.Core.Recovery.{
  recovery_pda_seed, recovery_pda_seeds, recovery_config_len, social_recover_preimage,
  guardian_from_slice, has_pending, clear_pending, set_guardian_ed25519, set_delay_slots,
  delay_slots, pending_new_ed25519, pending_ready_slot, set_pending_new_ed25519,
  set_pending_ready_slot,
}
use solana_hybrid_pq_account.Program.Runtime.{
  Runtime, World, Account, AccountInfo, set_content, data_is_empty, checked_add, two_accounts,
  three_accounts, system_transfer, system_allocate, system_assign,
}
use solana_hybrid_pq_account.Program.Ed25519.{verify_ed25519_precompile}
use solana_hybrid_pq_account.Program.Authorize.{authorize, split_wire_and_falcon}

abbrev pub auth_payload_len : ℕ
auth_payload_len = execute_intent_wire_len + 666

-- `RecoverySignerSeeds::new(..).as_slices()`
unfoldable pub recovery_signer_seeds : Bytes → ℕ → List Bytes
recovery_signer_seeds hybrid bump = recovery_pda_seed ∷ hybrid ∷ (bump ∷ []) ∷ []

abbrev pub as_set_recovery_config : Action → Option (Bytes × ℕ)
as_set_recovery_config (set_recovery_config guardian delay) = some (guardian, delay)
as_set_recovery_config _ = none

abbrev pub as_cancel_social_recovery : Action → Option (Unit {0})
as_cancel_social_recovery cancel_social_recovery = some tt
as_cancel_social_recovery _ = none

abbrev pub five_accounts :
    List AccountInfo → Option (AccountInfo × AccountInfo × AccountInfo × AccountInfo × AccountInfo)
five_accounts (a ∷ b ∷ c ∷ d ∷ e ∷ []) = some (a, b, c, d, e)
five_accounts _ = none

-- The last block of the set and cancel handlers.
unfoldable pub store_nonce : AccountInfo → ℕ → World → Result World
store_nonce hybrid next_nonce w = do
  account ← Account.try_from_bytes (w hybrid.key).content
  ok (set_content hybrid.key (set_nonce next_nonce account) w)

module _ (rt : Runtime) where
  unfoldable pub derive_recovery_config : Bytes → Bytes → Result (Bytes × ℕ)
  derive_recovery_config program_id hybrid =
      ok_or (rt.find_program_address (recovery_pda_seeds hybrid) program_id) invalid_pda

  unfoldable pub verify_recovery_config_pda : Bytes → Bytes → Bytes → Result ℕ
  verify_recovery_config_pda program_id hybrid recovery_config = do
    found ← derive_recovery_config program_id hybrid
    require (found.0 ==ᵇ recovery_config) invalid_pda
    ok found.1

  unfoldable pub clear_pending_after_ed25519_owner_change :
      Bytes → Bytes → AccountInfo → World → Result World
  clear_pending_after_ed25519_owner_change program_id hybrid recovery_config w = do
    verify_recovery_config_pda program_id hybrid recovery_config.key >>= λ bump. ok tt
    (if data_is_empty (w recovery_config.key) then ok w else (do
      require ((w recovery_config.key).owner ==ᵇ program_id) invalid_account_data
      require recovery_config.is_writable invalid_account_data
      cfg ← Recovery.try_from_bytes (w recovery_config.key).content
      ok (set_content recovery_config.key (clear_pending cfg) w)))

  unfoldable pub create_recovery_config_account :
      Bytes → AccountInfo → AccountInfo → Bytes → ℕ → World → Result World
  create_recovery_config_account program_id payer recovery_config hybrid bump w = do
    require (data_is_empty (w recovery_config.key)) account_already_initialized
    minimum_balance ← ok_or rt.minimum_balance invalid_account_data
    let lamports = minimum_balance recovery_config_len
    let seeds = recovery_signer_seeds hybrid bump
    let key = recovery_config.key
    w₁ ← ok_or (rt.invoke_signed (system_transfer payer.key key lamports) [] w) insufficient_funds
    w₂ ←
        ok_or (rt.invoke_signed (system_allocate key recovery_config_len) (seeds ∷ []) w₁)
          invalid_account_data
    ok_or (rt.invoke_signed (system_assign key program_id) (seeds ∷ []) w₂) invalid_account_data

  -- The two branches of the set handler, on an empty config account and on one in use.
  unfoldable pub create_recovery_config :
      Bytes → AccountInfo → AccountInfo → Bytes → ℕ → Bytes → ℕ → World → Result World
  create_recovery_config program_id payer recovery_config hybrid bump guardian delay w = do
    w₁ ← create_recovery_config_account program_id payer recovery_config hybrid bump w
    cfg ← Recovery.initialize (w₁ recovery_config.key).content bump guardian delay
    ok (set_content recovery_config.key cfg w₁)

  unfoldable pub update_recovery_config : Bytes → AccountInfo → Bytes → ℕ → World → Result World
  update_recovery_config program_id recovery_config guardian delay w = do
    require ((w recovery_config.key).owner ==ᵇ program_id) invalid_account_data
    cfg ← Recovery.try_from_bytes (w recovery_config.key).content
    refuse (has_pending cfg) invalid_account_data
    let cfg₁ = set_guardian_ed25519 guardian cfg
    ok (set_content recovery_config.key (set_delay_slots delay cfg₁) w)

  unfoldable pub process_set_recovery_config :
      Bytes → List AccountInfo → Bytes → World → Result World
  process_set_recovery_config program_id accounts payload w = do
    require (length payload == auth_payload_len) malformed_instruction_data
    acc ← ok_or (five_accounts accounts) malformed_instruction_data
    let hybrid = acc.0
    let config = acc.1
    let payer = acc.2
    let system_program = acc.3
    let sysvar = acc.4
    refuse (not hybrid.is_writable || not config.is_writable) invalid_account_data
    require payer.is_signer missing_signer
    require (system_program.key ==ᵇ rt.system_program_id) invalid_program_account
    refuse
        (not ((w hybrid.key).owner ==ᵇ program_id)
          || not (length (w hybrid.key).content == account_data_len))
        invalid_account_data
    bump ← verify_recovery_config_pda program_id hybrid.key config.key
    parts ← split_wire_and_falcon payload
    wire ← decode parts.0
    set ← ok_or (as_set_recovery_config wire.action) unsupported_action
    refuse (set.0 ==ᵇ zeros 32) invalid_account_data
    refuse (ltb set.1 1) invalid_account_data
    auth ← authorize rt program_id hybrid sysvar wire parts.1 w
    w₁ ←
        (if data_is_empty (w config.key)
          then create_recovery_config program_id payer config hybrid.key bump set.0 set.1 w
          else update_recovery_config program_id config set.0 set.1 w)
    store_nonce hybrid auth.next_nonce w₁

  unfoldable pub process_initiate_social_recovery :
      Bytes → List AccountInfo → Bytes → World → Result World
  process_initiate_social_recovery program_id accounts payload w = do
    require (length payload == 32) malformed_instruction_data
    acc ← ok_or (three_accounts accounts) malformed_instruction_data
    let hybrid = acc.0
    let config = acc.1
    let sysvar = acc.2
    require config.is_writable invalid_account_data
    refuse (not ((w hybrid.key).owner ==ᵇ program_id) || not ((w config.key).owner ==ᵇ program_id))
        invalid_account_data
    bump ← verify_recovery_config_pda program_id hybrid.key config.key
    refuse (payload ==ᵇ zeros 32) invalid_account_data
    let content = (w hybrid.key).content
    require (length content == account_data_len) invalid_account_data
    enabled ← recovery_enabled_from_slice content
    require enabled invalid_account_data
    current_owner ← owner_ed25519_from_slice content
    account_nonce ← nonce_from_slice content
    refuse (payload ==ᵇ current_owner) invalid_account_data
    guardian ← guardian_from_slice (w config.key).content
    let preimage =
        social_recover_preimage rt.chain_domain program_id hybrid.key payload account_nonce
    verify_ed25519_precompile rt sysvar guardian (rt.sha256 preimage)
    slot ← ok_or rt.clock_slot invalid_account_data
    cfg ← Recovery.try_from_bytes (w config.key).content
    refuse (has_pending cfg) invalid_account_data
    ready ← ok_or (checked_add slot (delay_slots cfg)) math_overflow
    let cfg₁ = set_pending_new_ed25519 payload cfg
    ok (set_content config.key (set_pending_ready_slot ready cfg₁) w)

  unfoldable pub process_finalize_social_recovery :
      Bytes → List AccountInfo → Bytes → World → Result World
  process_finalize_social_recovery program_id accounts payload w = do
    require (length payload == 0) malformed_instruction_data
    acc ← ok_or (two_accounts accounts) malformed_instruction_data
    let hybrid = acc.0
    let config = acc.1
    refuse (not hybrid.is_writable || not config.is_writable) invalid_account_data
    refuse (not ((w hybrid.key).owner ==ᵇ program_id) || not ((w config.key).owner ==ᵇ program_id))
        invalid_account_data
    bump ← verify_recovery_config_pda program_id hybrid.key config.key
    enabled ← recovery_enabled_from_slice (w hybrid.key).content
    require enabled invalid_account_data
    slot ← ok_or rt.clock_slot invalid_account_data
    cfg ← Recovery.try_from_bytes (w config.key).content
    require (has_pending cfg) invalid_account_data
    refuse (ltb slot (pending_ready_slot cfg)) intent_expired
    let pending = pending_new_ed25519 cfg
    let w₁ = set_content config.key (clear_pending cfg) w
    account ← Account.try_from_bytes (w₁ hybrid.key).content
    next ← ok_or (checked_add (nonce account) 1) math_overflow
    let account₁ = set_owner_ed25519 pending account
    ok (set_content hybrid.key (set_nonce next account₁) w₁)

  unfoldable pub process_cancel_social_recovery :
      Bytes → List AccountInfo → Bytes → World → Result World
  process_cancel_social_recovery program_id accounts payload w = do
    require (length payload == auth_payload_len) malformed_instruction_data
    acc ← ok_or (three_accounts accounts) malformed_instruction_data
    let hybrid = acc.0
    let config = acc.1
    let sysvar = acc.2
    refuse (not hybrid.is_writable || not config.is_writable) invalid_account_data
    refuse (not ((w hybrid.key).owner ==ᵇ program_id) || not ((w config.key).owner ==ᵇ program_id))
        invalid_account_data
    bump ← verify_recovery_config_pda program_id hybrid.key config.key
    enabled ← recovery_enabled_from_slice (w hybrid.key).content
    require enabled invalid_account_data
    parts ← split_wire_and_falcon payload
    wire ← decode parts.0
    ok_or (as_cancel_social_recovery wire.action) unsupported_action
    auth ← authorize rt program_id hybrid sysvar wire parts.1 w
    cfg ← Recovery.try_from_bytes (w config.key).content
    require (has_pending cfg) invalid_account_data
    let w₁ = set_content config.key (clear_pending cfg) w
    store_nonce hybrid auth.next_nonce w₁
