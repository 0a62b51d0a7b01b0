-- ===== src/Core/Account.antt =====
-- core/src/state.rs: the 1120-byte account. A `HybridAccount` is the buffer that it views; a
-- method that takes `&mut self` returns the new buffer.
pub mod Field
pub mod Slices
pub mod Flags
pub mod Setters
pub mod Initialize
pub mod Created
use Prim.Native.Nat.{bit_and, bit_or}
use solana_hybrid_pq_account.Base.{
  ℕ, ◌-◌, Bool, not, Option, none, some, List, [], ◌∷◌, Bytes, length, ◌==◌, if◌then◌else◌,
}
use solana_hybrid_pq_account.Base.Buffer.{slice, byte_at, write}
use solana_hybrid_pq_account.Base.Layout.{zeros}
use solana_hybrid_pq_account.Base.Words.{to_le_bytes, from_le_bytes}
use solana_hybrid_pq_account.Core.Error.{
  Result, ok, ◌>>=◌, ◌>>◌, require, ok_or, invalid_account_data,
}
use solana_hybrid_pq_account.Core.Policy.{AuthorizationPolicy, from_u8, as_u8}

-- "dualkey"
abbrev pub pda_seed : Bytes
pda_seed = b'd' ∷ b'u' ∷ b'a' ∷ b'l' ∷ b'k' ∷ b'e' ∷ b'y' ∷ []

unfoldable pub pda_seeds : Bytes → Bytes → List Bytes
pda_seeds creator account_index_le = pda_seed ∷ creator ∷ account_index_le ∷ []

abbrev pub account_data_len : ℕ
account_data_len = 1120

abbrev pub account_version : ℕ
account_version = 1

abbrev pub flag_recovery_enabled : ℕ
flag_recovery_enabled = 1

abbrev pub flag_falcon_threshold_set : ℕ
flag_falcon_threshold_set = 2

-- The complement of a flag in a `u8`.
abbrev pub without : ℕ → ℕ
without flag = 255 - flag

unfoldable pub try_from_bytes : Bytes → Result Bytes
try_from_bytes bytes = do require (length bytes == account_data_len) invalid_account_data; ok bytes

unfoldable pub version : Bytes → ℕ
version a = byte_at 0 a

unfoldable pub set_version : ℕ → Bytes → Bytes
set_version v a = write 0 (v ∷ []) a

unfoldable pub bump : Bytes → ℕ
bump a = byte_at 1 a

unfoldable pub set_bump : ℕ → Bytes → Bytes
set_bump b a = write 1 (b ∷ []) a

unfoldable pub account_index : Bytes → ℕ
account_index a = from_le_bytes (slice 4 4 a)

unfoldable pub set_account_index : ℕ → Bytes → Bytes
set_account_index i a = write 4 (to_le_bytes 4 i) a

unfoldable pub policy : Bytes → Result AuthorizationPolicy
policy a = ok_or (from_u8 (byte_at 2 a)) invalid_account_data

unfoldable pub set_policy : AuthorizationPolicy → Bytes → Bytes
set_policy p a = write 2 (as_u8 p ∷ []) a

unfoldable pub flags : Bytes → ℕ
flags a = byte_at 3 a

unfoldable pub set_flags : ℕ → Bytes → Bytes
set_flags f a = write 3 (f ∷ []) a

unfoldable pub recovery_enabled : Bytes → Bool
recovery_enabled a = not (bit_and (flags a) flag_recovery_enabled == 0)

unfoldable pub set_recovery_enabled : Bool → Bytes → Bytes
set_recovery_enabled enabled a =
    set_flags
      (if enabled
        then bit_or (flags a) flag_recovery_enabled
        else bit_and (flags a) (without flag_recovery_enabled))
      a

unfoldable pub owner_ed25519 : Bytes → Bytes
owner_ed25519 a = slice 8 32 a

unfoldable pub set_owner_ed25519 : Bytes → Bytes → Bytes
set_owner_ed25519 pubkey a = write 8 pubkey a

unfoldable pub falcon_public_key_hash : Bytes → Bytes
falcon_public_key_hash a = slice 40 32 a

unfoldable pub set_falcon_public_key_hash : Bytes → Bytes → Bytes
set_falcon_public_key_hash hash a = write 40 hash a

unfoldable pub nonce : Bytes → ℕ
nonce a = from_le_bytes (slice 72 8 a)

unfoldable pub set_nonce : ℕ → Bytes → Bytes
set_nonce n a = write 72 (to_le_bytes 8 n) a

unfoldable pub falcon_required_above : Bytes → Option ℕ
falcon_required_above a =
    if bit_and (flags a) flag_falcon_threshold_set == 0
    then none
    else some (from_le_bytes (slice 80 8 a))

unfoldable pub set_falcon_required_above : Option ℕ → Bytes → Bytes
set_falcon_required_above (some v) a =
    set_flags (bit_or (flags a) flag_falcon_threshold_set) (write 80 (to_le_bytes 8 v) a)
set_falcon_required_above none a =
    set_flags (bit_and (flags a) (without flag_falcon_threshold_set)) (write 80 (zeros 8) a)

unfoldable pub prepared_falcon_public_key : Bytes → Bytes
prepared_falcon_public_key a = slice 96 1024 a

-- `prepared_falcon_public_key_mut().copy_from_slice(key)`
unfoldable pub set_prepared_falcon_public_key : Bytes → Bytes → Bytes
set_prepared_falcon_public_key key a = write 96 key a

unfoldable pub initialize_without_falcon_key :
    Bytes → ℕ → ℕ → Bytes → Bytes → AuthorizationPolicy → Result Bytes
initialize_without_falcon_key buffer b index owner hash p = do
  require (length buffer == account_data_len) invalid_account_data
  let a₀ = zeros (length buffer)
  let a₁ = set_version account_version a₀
  let a₂ = set_bump b a₁
  let a₃ = set_account_index index a₂
  let a₄ = set_policy p a₃
  let a₅ = set_owner_ed25519 owner a₄
  let a₆ = set_falcon_public_key_hash hash a₅
  ok (set_nonce 0 a₆)

unfoldable pub initialize :
    Bytes → ℕ → ℕ → Bytes → Bytes → Bytes → AuthorizationPolicy → Result Bytes
initialize buffer b index owner hash prepared p = do
  a ← initialize_without_falcon_key buffer b index owner hash p
  ok (set_prepared_falcon_public_key prepared a)
