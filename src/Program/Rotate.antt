-- ===== src/Program/Rotate.antt =====
-- program/src/rotate.rs: the rotation of either key under the current policy.
pub mod Effect
pub mod FalconKey
use solana_hybrid_pq_account.Base.{
  ℕ, ◌+◌, Bool, Option, none, some, List, Bytes, length, ◌==◌, ◌==ᵇ◌,
}
use solana_hybrid_pq_account.Core.Error.{
  Result, ok, ◌>>=◌, ◌>>◌, require, refuse, ok_or, invalid_account_data, malformed_instruction_data,
  unsupported_action, digest_mismatch, malformed_falcon,
}
use solana_hybrid_pq_account.Core.Intent.{Action, rotate_ed25519_key, rotate_falcon_key}
use solana_hybrid_pq_account.Core.Wire.{execute_intent_wire_len, decode}
use solana_hybrid_pq_account.Core.Account.{
  try_from_bytes, set_nonce, set_owner_ed25519, set_falcon_public_key_hash,
  set_prepared_falcon_public_key,
}
use solana_hybrid_pq_account.Core.Account.Slices.{
  owner_ed25519_from_slice, falcon_public_key_hash_from_slice,
}
use solana_hybrid_pq_account.Program.Runtime.{
  Runtime, World, Account, AccountInfo, set_content, split_at_checked, two_accounts, three_accounts,
}
use solana_hybrid_pq_account.Program.Falcon.{verify_falcon_raw}
use solana_hybrid_pq_account.Program.Authorize.{Authorization, authorize, split_wire_and_falcon}
use solana_hybrid_pq_account.Program.SocialRecovery.{clear_pending_after_ed25519_owner_change}

abbrev pub as_rotate_ed25519_key : Action → Option Bytes
as_rotate_ed25519_key (rotate_ed25519_key new_pubkey) = some new_pubkey
as_rotate_ed25519_key _ = none

abbrev pub as_rotate_falcon_key : Action → Option Bytes
as_rotate_falcon_key (rotate_falcon_key new_pubkey_hash) = some new_pubkey_hash
as_rotate_falcon_key _ = none

abbrev pub rotate_falcon_payload_len : ℕ
rotate_falcon_payload_len = execute_intent_wire_len + 666 + 897 + 666

unfoldable pub apply_ed25519_rotation : AccountInfo → Bytes → Authorization → World → Result World
apply_ed25519_rotation hybrid new_pubkey auth w = do
  account ← try_from_bytes (w hybrid.key).content
  let account₁ = set_nonce auth.next_nonce account
  ok (set_content hybrid.key (set_owner_ed25519 new_pubkey account₁) w)

module _ (rt : Runtime) where
  unfoldable pub process_rotate_ed25519 : Bytes → List AccountInfo → Bytes → World → Result World
  process_rotate_ed25519 program_id accounts payload w = do
    require (length payload == execute_intent_wire_len + 666) malformed_instruction_data
    acc ← ok_or (three_accounts accounts) malformed_instruction_data
    let hybrid = acc.0
    require hybrid.is_writable invalid_account_data
    parts ← split_wire_and_falcon payload
    wire ← decode parts.0
    new_pubkey ← ok_or (as_rotate_ed25519_key wire.action) unsupported_action
    current ← owner_ed25519_from_slice (w hybrid.key).content
    refuse (new_pubkey ==ᵇ current) invalid_account_data
    auth ← authorize rt program_id hybrid acc.2 wire parts.1 w
    w₁ ← apply_ed25519_rotation hybrid new_pubkey auth w
    clear_pending_after_ed25519_owner_change rt program_id hybrid.key acc.1 w₁

  unfoldable pub apply_falcon_rotation :
      AccountInfo → Bytes → Bytes → Authorization → World → Result World
  apply_falcon_rotation hybrid new_wire_pk new_pubkey_hash auth w = do
    pubkey ← ok_or (rt.pubkey_from_slice new_wire_pk) malformed_falcon
    prepared ← ok_or (rt.try_prepare_pubkey pubkey) malformed_falcon
    account ← try_from_bytes (w hybrid.key).content
    let account₁ = set_nonce auth.next_nonce account
    let account₂ = set_falcon_public_key_hash new_pubkey_hash account₁
    ok (set_content hybrid.key (set_prepared_falcon_public_key prepared account₂) w)

  unfoldable pub process_rotate_falcon : Bytes → List AccountInfo → Bytes → World → Result World
  process_rotate_falcon program_id accounts payload w = do
    require (length payload == rotate_falcon_payload_len) malformed_instruction_data
    acc ← ok_or (two_accounts accounts) malformed_instruction_data
    let hybrid = acc.0
    require hybrid.is_writable invalid_account_data
    p₁ ← ok_or (split_at_checked execute_intent_wire_len payload) malformed_instruction_data
    p₂ ← ok_or (split_at_checked 666 p₁.1) malformed_instruction_data
    p₃ ← ok_or (split_at_checked 897 p₂.1) malformed_instruction_data
    require (length p₃.1 == 666) malformed_instruction_data
    wire ← decode p₁.0
    new_hash ← ok_or (as_rotate_falcon_key wire.action) unsupported_action
    require (rt.sha256 p₃.0 ==ᵇ new_hash) digest_mismatch
    current_hash ← falcon_public_key_hash_from_slice (w hybrid.key).content
    refuse (new_hash ==ᵇ current_hash) invalid_account_data
    auth ← authorize rt program_id hybrid acc.1 wire p₂.0 w
    verify_falcon_raw rt p₃.0 auth.digest p₃.1
    apply_falcon_rotation hybrid p₃.0 new_hash auth w
