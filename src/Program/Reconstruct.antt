-- ===== src/Program/Reconstruct.antt =====
-- program/src/reconstruct.rs and hash.rs: the digest that the program expects to be signed.
pub mod Digest
use mathlib.Core.List.{head?}
use solana_hybrid_pq_account.Base.{ℕ, Bytes, length, ◌==◌, ◌==ᵇ◌, List, [], ◌∷◌, ◌+◌}
use solana_hybrid_pq_account.Core.Error.{
  Result, ok, err, ◌>>=◌, ◌>>◌, require, ok_or, invalid_account_data, unsupported_version,
  malformed_instruction_data, digest_mismatch,
}
use solana_hybrid_pq_account.Core.Canonical.{canonical_preimage, canonical_preimage_len}
use solana_hybrid_pq_account.Core.Wire.{
  ExecuteIntentWire, IntentContext, reconstruct_intent, decode, execute_intent_wire_len,
}
use solana_hybrid_pq_account.Core.Account.{account_version}
use solana_hybrid_pq_account.Core.Account.Slices.{version_from_slice, nonce_from_slice}
use solana_hybrid_pq_account.Program.Runtime.{Runtime, World, AccountInfo, split_at_checked}

module _ (rt : Runtime) where
  unfoldable pub digest_canonical_preimage : Bytes → Result Bytes
  digest_canonical_preimage preimage = do
    require (length preimage == canonical_preimage_len) malformed_instruction_data
    ok (rt.sha256 preimage)

  unfoldable pub reconstruct_and_digest :
      Bytes → AccountInfo → ExecuteIntentWire → World → Result (Bytes × IntentContext)
  reconstruct_and_digest program_id info wire w = do
    let account = w info.key
    require (account.owner ==ᵇ program_id) invalid_account_data
    version ← version_from_slice account.content
    require (version == account_version) unsupported_version
    nonce ← nonce_from_slice account.content
    let ctx : IntentContext = record {
      chain_domain = rt.chain_domain;
      program_id = program_id;
      account = info.key;
      nonce = nonce;
    }
    digest ← digest_canonical_preimage (canonical_preimage (reconstruct_intent ctx wire))
    ok (digest, ctx)

  unfoldable pub process_reconstruct_canonical_digest :
      Bytes → List AccountInfo → Bytes → World → Result World
  process_reconstruct_canonical_digest program_id accounts payload w = do
    require (length payload == execute_intent_wire_len + 32) malformed_instruction_data
    info ← ok_or (head? accounts) malformed_instruction_data
    parts ← ok_or (split_at_checked execute_intent_wire_len payload) malformed_instruction_data
    wire ← decode parts.0
    found ← reconstruct_and_digest program_id info wire w
    require (found.0 ==ᵇ parts.1) digest_mismatch
    ok w
