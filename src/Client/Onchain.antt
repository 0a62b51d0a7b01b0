-- ===== src/Client/Onchain.antt =====
-- client/src/onchain.rs: addresses, instruction data, and the builders of `Initialize`, `Execute`
-- and the reconstruction harness. The other builders are in `Lifecycle`.
pub mod Lifecycle
pub mod Dispatch
pub mod Created
pub mod Authorized
pub mod Delivered
use Prim.Native.String.{String}
use solana_hybrid_pq_account.Base.{
  ℕ, ◌+◌, Bool, true, false, Option, none, some, [], ◌∷◌, ◌++◌, Bytes, length, ◌==◌,
}
use solana_hybrid_pq_account.Base.Words.{to_le_bytes}
use solana_hybrid_pq_account.Core.ChainDomain.{chain_domain_localnet}
use solana_hybrid_pq_account.Core.Intent
use solana_hybrid_pq_account.Core.Intent.{Action, transfer_sol, transfer_spl, AuthorizationIntent}
use solana_hybrid_pq_account.Core.Policy.{AuthorizationPolicy, is_implemented, as_u8}
use solana_hybrid_pq_account.Core.Wire.{IntentContext, from_intent, encode, execute_intent_wire_len}
use solana_hybrid_pq_account.Core.Account.{pda_seeds}
use solana_hybrid_pq_account.Core.Recovery.{recovery_pda_seeds}
use solana_hybrid_pq_account.Program.Runtime.{Runtime, Instruction, AccountMeta}
use solana_hybrid_pq_account.Client.Crates.{Crates}
use solana_hybrid_pq_account.Client.Error.{
  Result, ok, err, ◌>>=◌, ◌>>◌, require, ok_or, pda_derivation, key_file_length,
  policy_not_implemented, intent_format,
}

abbrev pub initialize_discriminator : ℕ
initialize_discriminator = 0

abbrev pub execute_discriminator : ℕ
execute_discriminator = 1

abbrev pub reconstruct_digest_discriminator : ℕ
reconstruct_digest_discriminator = 243

abbrev pub initialize_data_len : ℕ
initialize_data_len = 1 + 4 + 32 + 1 + 897

abbrev pub execute_data_len : ℕ
execute_data_len = 1 + execute_intent_wire_len + 666

-- `AccountMeta::new` and `AccountMeta::new_readonly`
abbrev pub writable_meta : Bytes → Bool → AccountMeta
writable_meta key signer = record { pubkey = key; signer = signer; writable = true }

abbrev pub readonly_meta : Bytes → Bool → AccountMeta
readonly_meta key signer = record { pubkey = key; signer = signer; writable = false }

unfoldable pub default_chain_domain : Bytes
default_chain_domain = chain_domain_localnet

unfoldable pub initialize_data : ℕ → Bytes → AuthorizationPolicy → Bytes → Result Bytes
initialize_data account_index owner_ed25519 policy falcon_wire_pubkey = do
  require (length falcon_wire_pubkey == 897)
      (key_file_length "falcon512.pk" 897 (length falcon_wire_pubkey))
  require (is_implemented policy) (policy_not_implemented (as_u8 policy))
  ok (
      initialize_discriminator ∷ to_le_bytes 4 account_index
      ++ owner_ed25519
      ++ as_u8 policy ∷ falcon_wire_pubkey)

unfoldable pub signing_intent_with_domain :
    Bytes → Bytes → Bytes → ℕ → ℕ → Action → AuthorizationIntent
signing_intent_with_domain chain_domain program_id account nonce expiry_slot action =
    Intent.new chain_domain program_id account nonce expiry_slot action

unfoldable pub signing_intent : Bytes → Bytes → ℕ → ℕ → Action → AuthorizationIntent
unfolding signing_intent_with_domain default_chain_domain
signing_intent program_id account nonce expiry_slot action =
    signing_intent_with_domain default_chain_domain program_id account nonce expiry_slot action

unfoldable pub intent_context_for : AuthorizationIntent → IntentContext
intent_context_for i = record {
  chain_domain = i.chain_domain;
  program_id = i.program_id;
  account = i.account;
  nonce = i.nonce;
}

unfoldable pub encode_execute_intent_wire : AuthorizationIntent → Bytes
encode_execute_intent_wire i = encode (from_intent i)

-- The length check on a Falcon signature that the builders share.
abbrev pub check_sig : String → Bytes → Result (Unit {0})
check_sig path falcon_sig =
    require (length falcon_sig == 666) (key_file_length path 666 (length falcon_sig))

unfoldable pub execute_data : AuthorizationIntent → Bytes → Result Bytes
unfolding encode_execute_intent_wire
execute_data intent falcon_sig = do
  check_sig "falcon signature" falcon_sig
  ok (execute_discriminator ∷ encode_execute_intent_wire intent ++ falcon_sig)

-- `Action::TransferSol { recipient, .. }` and `Action::TransferSpl { destination, .. }`
abbrev pub recipient_of : Action → Option Bytes
recipient_of (transfer_sol recipient lamports) = some recipient
recipient_of _ = none

abbrev pub destination_of : Action → Option Bytes
destination_of (transfer_spl destination amount) = some destination
destination_of _ = none

module _ (rt : Runtime) where
  unfoldable pub derive_hybrid_account : Bytes → Bytes → ℕ → Result (Bytes × ℕ)
  derive_hybrid_account program_id creator account_index =
      ok_or (rt.find_program_address (pda_seeds creator (to_le_bytes 4 account_index)) program_id)
        pda_derivation

  unfoldable pub derive_recovery_config : Bytes → Bytes → Result (Bytes × ℕ)
  derive_recovery_config program_id hybrid_account =
      ok_or (rt.find_program_address (recovery_pda_seeds hybrid_account) program_id) pda_derivation

  unfoldable pub initialize_instruction :
      Bytes → Bytes → ℕ → Bytes → AuthorizationPolicy → Bytes → Result (Instruction × Bytes × ℕ)
  unfolding derive_hybrid_account
  initialize_instruction program_id creator account_index owner policy falcon_wire_pubkey = do
    found ← derive_hybrid_account program_id creator account_index
    bytes ← initialize_data account_index owner policy falcon_wire_pubkey
    let instruction : Instruction = record {
      program = program_id;
      metas =
          writable_meta creator true
          ∷ writable_meta found.0 false
          ∷ readonly_meta rt.system_program_id false
          ∷ [];
      payload = bytes;
    }
    ok (instruction, found.0, found.1)

  unfoldable pub reconstruct_digest_instruction :
      Bytes → Bytes → AuthorizationIntent → Bytes → Instruction
  unfolding encode_execute_intent_wire
  reconstruct_digest_instruction program_id hybrid_account intent expected_digest = record {
    program = program_id;
    metas = readonly_meta hybrid_account false ∷ [];
    payload =
        reconstruct_digest_discriminator ∷ encode_execute_intent_wire intent ++ expected_digest;
  }

  unfoldable pub execute_instruction :
      Bytes → Bytes → AuthorizationIntent → Bytes → Result Instruction
  unfolding execute_data
  execute_instruction program_id hybrid_account intent falcon_sig = do
    recipient ← ok_or (recipient_of intent.action) (
        intent_format "execute"
          "Execute builder only accepts TransferSol; use execute_transfer_spl_instruction for SPL")
    bytes ← execute_data intent falcon_sig
    ok (record {
      program = program_id;
      metas =
          writable_meta hybrid_account false
          ∷ writable_meta recipient false
          ∷ readonly_meta rt.instructions_sysvar_id false
          ∷ [];
      payload = bytes;
    })

  unfoldable pub execute_transfer_spl_instruction_with_program :
      Bytes
      → Bytes
      → Bytes
      → Bytes
      → Bytes
      → Bytes
      → AuthorizationIntent
      → Bytes
      → Result Instruction
  unfolding execute_data
  execute_transfer_spl_instruction_with_program program_id hybrid_account creator source_token mint
        token_program intent falcon_sig =
      do
        destination ←
            ok_or (destination_of intent.action)
              (intent_format "execute_transfer_spl" "intent action must be TransferSpl")
        bytes ← execute_data intent falcon_sig
        ok (record {
          program = program_id;
          metas =
              writable_meta hybrid_account false
              ∷ readonly_meta creator false
              ∷ writable_meta source_token false
              ∷ readonly_meta mint false
              ∷ writable_meta destination false
              ∷ readonly_meta token_program false
              ∷ readonly_meta rt.instructions_sysvar_id false
              ∷ [];
          payload = bytes;
        })

  unfoldable pub execute_transfer_spl_instruction :
      Bytes → Bytes → Bytes → Bytes → Bytes → AuthorizationIntent → Bytes → Result Instruction
  unfolding execute_transfer_spl_instruction_with_program
  execute_transfer_spl_instruction program_id hybrid_account creator source_token mint intent
        falcon_sig =
      execute_transfer_spl_instruction_with_program program_id hybrid_account creator source_token
        mint rt.token_program_id intent falcon_sig

unfoldable pub ed25519_precompile_instruction : Crates → Bytes → Bytes → Bytes → Instruction
ed25519_precompile_instruction c message signature pubkey =
    c.new_ed25519_instruction_with_signature message signature pubkey
