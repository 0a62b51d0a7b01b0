-- ===== src/Program/SplToken.antt =====
-- program/src/spl_token.rs: the token transfer that the hybrid account signs for.
pub mod Walk
pub mod Transfer
use solana_hybrid_pq_account.Base.{
  ℕ, zero, suc, ◌+◌, ◌-◌, Option, none, some, Bool, not, ◌&&◌, ◌||◌, List, [], ◌∷◌, ◌++◌, Bytes,
  length, ltb, leb, ◌==◌, ◌==ᵇ◌, if◌then◌else◌, true, false,
}
use solana_hybrid_pq_account.Base.Buffer.{slice, byte_at}
use solana_hybrid_pq_account.Base.Words.{to_le_bytes, from_le_bytes}
use solana_hybrid_pq_account.Core.Error.{
  Result, ok, err, ◌>>=◌, ◌>>◌, require, refuse, ok_or, invalid_account_data,
  invalid_program_account, invalid_pda, insufficient_funds,
}
use solana_hybrid_pq_account.Core.Wire.{any_nonzero}
use solana_hybrid_pq_account.Core.Account.Slices.{account_index_from_slice}
use solana_hybrid_pq_account.Program.Runtime.{
  Runtime, World, Account, AccountInfo, AccountMeta, Instruction, token_instruction,
}
use solana_hybrid_pq_account.Program.Pda.{signer_seeds}

abbrev pub token_account_len : ℕ
token_account_len = 165

abbrev pub mint_len : ℕ
mint_len = 82

abbrev pub multisig_len : ℕ
multisig_len = 355

abbrev pub ext_transfer_hook : ℕ
ext_transfer_hook = 14

abbrev pub ext_transfer_hook_account : ℕ
ext_transfer_hook_account = 15

-- Where the walk starts: behind the base state, or behind the padding to a multisig's length.
unfoldable pub account_type_at : ℕ → Bytes → ℕ
account_type_at base_len bytes =
    if ltb multisig_len (length bytes)
      && ltb base_len multisig_len
      && not (any_nonzero (slice base_len (multisig_len - base_len) bytes))
    then multisig_len
    else base_len

abbrev pub ext_type : ℕ → Bytes → ℕ
ext_type i bytes = from_le_bytes (slice i 2 bytes)

abbrev pub ext_len : ℕ → Bytes → ℕ
ext_len i bytes = from_le_bytes (slice (i + 2) 2 bytes)

abbrev get_or_else : Option (Result (Unit {0})) → Result (Unit {0}) → Result (Unit {0})
get_or_else none r = r
get_or_else (some result) r = result

-- The `while` loop from `i` on, in so many turns, the test that ends it included: `none` where it is
-- not over by then.
unfoldable pub walk_tlv : ℕ → ℕ → Bytes → Option (Result (Unit {0}))
walk_tlv zero i bytes = none
walk_tlv (suc turns) i bytes =
    let rest = walk_tlv turns (i + 4 + ext_len i bytes) bytes in
    if leb (i + 4) (length bytes)
    then (if ltb (length bytes) (i + 4 + ext_len i bytes)
        then some (err invalid_account_data)
        else if ext_type i bytes == ext_transfer_hook
            || ext_type i bytes == ext_transfer_hook_account
        then some (err invalid_account_data)
        else if ext_type i bytes == 0 && ext_len i bytes == 0
        then some (ok tt)
        else rest)
    else some (ok tt)

-- As many turns as there are bytes are enough, so that the error for too few is never the result.
unfoldable pub reject_if_transfer_hook : Bytes → ℕ → Result (Unit {0})
reject_if_transfer_hook bytes base_len =
    let tlv_start = account_type_at base_len bytes in
    if leb (length bytes) base_len
    then ok tt
    else if leb (length bytes) tlv_start
    then ok tt
    else get_or_else (walk_tlv (length bytes) (tlv_start + 1) bytes) (err invalid_account_data)

-- The blocks of `transfer_spl` on the mint, on the source and on the destination.
unfoldable pub mint_decimals : Bytes → Result ℕ
mint_decimals bytes = do
  refuse (ltb (length bytes) mint_len) invalid_account_data
  reject_if_transfer_hook bytes mint_len
  ok (byte_at 44 bytes)

unfoldable pub check_source : Bytes → Bytes → Bytes → ℕ → Result (Unit {0})
check_source bytes mint owner amount = do
  refuse (ltb (length bytes) token_account_len) invalid_account_data
  reject_if_transfer_hook bytes token_account_len
  require (slice 0 32 bytes ==ᵇ mint) invalid_account_data
  require (slice 32 32 bytes ==ᵇ owner) invalid_account_data
  refuse (ltb (from_le_bytes (slice 64 8 bytes)) amount) insufficient_funds
  ok tt

unfoldable pub check_destination : Bytes → Bytes → Result (Unit {0})
check_destination bytes mint = do
  refuse (ltb (length bytes) token_account_len) invalid_account_data
  reject_if_transfer_hook bytes token_account_len
  require (slice 0 32 bytes ==ᵇ mint) invalid_account_data
  ok tt

unfoldable pub transfer_checked_instruction :
    Bytes → Bytes → Bytes → Bytes → Bytes → ℕ → ℕ → Instruction
transfer_checked_instruction token_program source mint destination authority amount decimals =
    record {
      program = token_program;
      metas =
          record { pubkey = source; signer = false; writable = true }
          ∷ record { pubkey = mint; signer = false; writable = false }
          ∷ record { pubkey = destination; signer = false; writable = true }
          ∷ record { pubkey = authority; signer = true; writable = false }
          ∷ [];
      payload = 12 ∷ to_le_bytes 8 amount ++ (decimals ∷ []);
    }

-- The accounts of a token transfer.
pub record TransferSplAccounts : Type 0 where
  pub hybrid_account : AccountInfo
  pub creator : AccountInfo
  pub source : AccountInfo
  pub mint : AccountInfo
  pub destination : AccountInfo
  pub token_program : AccountInfo
  pub instructions_sysvar : AccountInfo

module _ (rt : Runtime) where
  unfoldable pub is_supported_token_program : Bytes → Bool
  is_supported_token_program id = id ==ᵇ rt.token_program_id || id ==ᵇ rt.token_2022_program_id

  unfoldable pub transfer_spl : Bytes → TransferSplAccounts → ℕ → Bytes → World → Result World
  transfer_spl program_id acc amount expected_destination w = do
    let token = acc.token_program.key
    let hybrid = acc.hybrid_account.key
    require (acc.destination.key ==ᵇ expected_destination) invalid_account_data
    refuse (acc.source.key ==ᵇ acc.destination.key) invalid_account_data
    require (is_supported_token_program token) invalid_program_account
    refuse
        (not ((w acc.source.key).owner ==ᵇ token)
          || not ((w acc.destination.key).owner ==ᵇ token)
          || not ((w acc.mint.key).owner ==ᵇ token))
        invalid_account_data
    refuse (not acc.source.is_writable || not acc.destination.is_writable) invalid_account_data
    let bump = byte_at 1 (w hybrid).content
    account_index ← account_index_from_slice (w hybrid).content
    let seeds = signer_seeds acc.creator.key account_index bump
    derived ← ok_or (rt.create_program_address seeds program_id) invalid_pda
    require (derived ==ᵇ hybrid) invalid_pda
    decimals ← mint_decimals (w acc.mint.key).content
    check_source (w acc.source.key).content acc.mint.key hybrid amount
    check_destination (w acc.destination.key).content acc.mint.key
    (if amount == 0
        then ok w
        else ok_or
            (rt.invoke_signed
              (token_instruction (
                transfer_checked_instruction token acc.source.key acc.mint.key acc.destination.key
                  hybrid amount decimals))
              (seeds ∷ []) w)
            insufficient_funds)
