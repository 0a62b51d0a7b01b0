-- ===== src/Core/Account/Slices.antt =====
-- The readers of state.rs that take a borrowed buffer, `*_from_slice`: each tests the length
-- before it reads.
use Prim.Native.Nat.{bit_and}
use solana_hybrid_pq_account.Base.{
  ℕ, ◌≡◌, Bool, true, not, Option, none, some, Bytes, length, ◌==◌, if◌then◌else◌, arith,
}
use solana_hybrid_pq_account.Base.Buffer.{slice, byte_at}
use solana_hybrid_pq_account.Base.Words.{from_le_bytes}
use solana_hybrid_pq_account.Core.Error.{Result, ok, ◌>>◌, require, ok_or, invalid_account_data}
use solana_hybrid_pq_account.Core.Policy.{AuthorizationPolicy, from_u8}
use solana_hybrid_pq_account.Core.Account.{
  account_data_len, flag_recovery_enabled, flag_falcon_threshold_set, policy, owner_ed25519,
  version, nonce, flags, falcon_required_above, falcon_public_key_hash, account_index,
  recovery_enabled, prepared_falcon_public_key,
}

abbrev check_len : Bytes → Result (Unit {0})
check_len bytes = require (length bytes == account_data_len) invalid_account_data

unfoldable pub owner_ed25519_from_slice : Bytes → Result Bytes
owner_ed25519_from_slice bytes = do check_len bytes; ok (slice 8 32 bytes)

unfoldable pub policy_from_slice : Bytes → Result AuthorizationPolicy
policy_from_slice bytes = do check_len bytes; ok_or (from_u8 (byte_at 2 bytes)) invalid_account_data

unfoldable pub prepared_falcon_public_key_from_slice : Bytes → Result Bytes
prepared_falcon_public_key_from_slice bytes = do check_len bytes; ok (slice 96 1024 bytes)

unfoldable pub version_from_slice : Bytes → Result ℕ
version_from_slice bytes = do check_len bytes; ok (byte_at 0 bytes)

unfoldable pub nonce_from_slice : Bytes → Result ℕ
nonce_from_slice bytes = do check_len bytes; ok (from_le_bytes (slice 72 8 bytes))

unfoldable pub falcon_required_above_from_slice : Bytes → Result (Option ℕ)
falcon_required_above_from_slice bytes = do
  check_len bytes
  (if bit_and (byte_at 3 bytes) flag_falcon_threshold_set == 0
      then ok none
      else ok (some (from_le_bytes (slice 80 8 bytes))))

unfoldable pub falcon_public_key_hash_from_slice : Bytes → Result Bytes
falcon_public_key_hash_from_slice bytes = do check_len bytes; ok (slice 40 32 bytes)

unfoldable pub account_index_from_slice : Bytes → Result ℕ
account_index_from_slice bytes = do check_len bytes; ok (from_le_bytes (slice 4 4 bytes))

unfoldable pub recovery_enabled_from_slice : Bytes → Result Bool
recovery_enabled_from_slice bytes = do
  check_len bytes
  ok (not (bit_and (byte_at 3 bytes) flag_recovery_enabled == 0))

-- What a reader of a borrowed buffer returns, by the method of the view.
module _ (bytes : Bytes) (fits : length bytes ≡ 1120) where
  fits_test : (length bytes == 1120) ≡ true
  fits_test = ground arith

  -- On a buffer of the account's length the borrowed readers and the methods of the view agree.
  pub from_slice-view :
      (owner_ed25519_from_slice bytes ≡ ok (owner_ed25519 bytes))
      × (policy_from_slice bytes ≡ policy bytes)
      × (prepared_falcon_public_key_from_slice bytes ≡ ok (prepared_falcon_public_key bytes))
      × (version_from_slice bytes ≡ ok (version bytes))
      × (nonce_from_slice bytes ≡ ok (nonce bytes))
      × (falcon_required_above_from_slice bytes ≡ ok (falcon_required_above bytes))
      × (falcon_public_key_hash_from_slice bytes ≡ ok (falcon_public_key_hash bytes))
      × (account_index_from_slice bytes ≡ ok (account_index bytes))
      × (recovery_enabled_from_slice bytes ≡ ok (recovery_enabled bytes))
  unfolding owner_ed25519_from_slice owner_ed25519 policy_from_slice policy
      prepared_falcon_public_key_from_slice prepared_falcon_public_key version_from_slice version
      nonce_from_slice nonce falcon_required_above_from_slice falcon_required_above
      falcon_public_key_hash_from_slice falcon_public_key_hash account_index_from_slice
      account_index recovery_enabled_from_slice recovery_enabled flags
  from_slice-view = ground (arith, fits_test)
