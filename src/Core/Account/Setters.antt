-- ===== src/Core/Account/Setters.antt =====
-- Each setter against its getter, and what it leaves alone.
use solana_hybrid_pq_account.Base.{
  ℕ, ◌+◌, ◌≤◌, ◌≡◌, ◌≢◌, refl, ap, ◌∙◌, Bool, Option, none, some, [], ◌∷◌, arith, Bytes, length,
}
use solana_hybrid_pq_account.Base.Buffer.{
  byte_at, write, length-write, byte_at-slice, slice-write_self,
}
use solana_hybrid_pq_account.Base.Layout.{zeros, length-zeros}
use solana_hybrid_pq_account.Base.Words.{
  IsU64, to_le_bytes, from_le_bytes, length-to_le_bytes, from_le_bytes-to_le_bytes,
}
use solana_hybrid_pq_account.Core.Error.{ok, ok_or, invalid_account_data}
use solana_hybrid_pq_account.Core.Policy.{AuthorizationPolicy, from_u8, as_u8}
use solana_hybrid_pq_account.Core.Policy.Laws.{from_u8-as_u8}
use solana_hybrid_pq_account.Core.Account.{
  set_policy, policy, set_flags, flags, set_recovery_enabled, owner_ed25519, set_owner_ed25519,
  falcon_public_key_hash, set_falcon_public_key_hash, nonce, set_nonce, set_falcon_required_above,
  prepared_falcon_public_key, set_prepared_falcon_public_key,
}
use solana_hybrid_pq_account.Core.Account.Field.{Field, rank, field, put, field-put_ne}

-- A single byte reads back.
byte_at-write : (i v : ℕ) (a : Bytes) → i + 1 ≤ length a → byte_at i (write i (v ∷ []) a) ≡ v
byte_at-write i v a h =
    byte_at-slice i (write i (v ∷ []) a)
    ∙ ap (byte_at 0) (slice-write_self i 1 (v ∷ []) a refl h)
    ∙ unfold byte_at in refl

-- The getters by the fields that they read.
pub nonce-field : (a : Bytes) → nonce a ≡ from_le_bytes (field Field.nonce a)
unfolding nonce field
nonce-field a = refl

pub owner_ed25519-field : (a : Bytes) → owner_ed25519 a ≡ field Field.owner_ed25519 a
unfolding owner_ed25519 field
owner_ed25519-field a = refl

pub flags-field : (a : Bytes) → flags a ≡ byte_at 0 (field Field.flags a)
unfolding flags field
flags-field a = byte_at-slice 3 a

pub policy-field :
    (a : Bytes) → policy a ≡ ok_or (from_u8 (byte_at 0 (field Field.policy a))) invalid_account_data
unfolding policy field
policy-field a = ap (λ b. ok_or (from_u8 b) invalid_account_data) (byte_at-slice 2 a)

-- A setter changes its own field and no other.
module _ (f : Field) (a : Bytes) where
  pub field-set_nonce : (n : ℕ) → rank f ≢ 7 → field f (set_nonce n a) ≡ field f a
  unfolding set_nonce put
  field-set_nonce n ne = field-put_ne f Field.nonce (to_le_bytes 8 n) a (length-to_le_bytes 8 n) ne

  pub field-set_policy :
      (p : AuthorizationPolicy) → rank f ≢ 2 → field f (set_policy p a) ≡ field f a
  unfolding set_policy put
  field-set_policy p ne = field-put_ne f Field.policy (as_u8 p ∷ []) a refl ne

  pub field-set_flags : (b : ℕ) → rank f ≢ 3 → field f (set_flags b a) ≡ field f a
  unfolding set_flags put
  field-set_flags b ne = field-put_ne f Field.flags (b ∷ []) a refl ne

  pub field-set_owner_ed25519 :
      (k : Bytes) → length k ≡ 32 → rank f ≢ 5 → field f (set_owner_ed25519 k a) ≡ field f a
  unfolding set_owner_ed25519 put
  field-set_owner_ed25519 k h ne = field-put_ne f Field.owner_ed25519 k a h ne

  pub field-set_falcon_public_key_hash :
      (k : Bytes)
      → length k ≡ 32
      → rank f ≢ 6
      → field f (set_falcon_public_key_hash k a) ≡ field f a
  unfolding set_falcon_public_key_hash put
  field-set_falcon_public_key_hash k h ne = field-put_ne f Field.falcon_public_key_hash k a h ne

  pub field-set_prepared_falcon_public_key :
      (k : Bytes)
      → length k ≡ 1024
      → rank f ≢ 10
      → field f (set_prepared_falcon_public_key k a) ≡ field f a
  unfolding set_prepared_falcon_public_key put
  field-set_prepared_falcon_public_key k h ne =
      field-put_ne f Field.prepared_falcon_public_key k a h ne

  pub field-set_recovery_enabled :
      (b : Bool) → rank f ≢ 3 → field f (set_recovery_enabled b a) ≡ field f a
  unfolding set_recovery_enabled
  field-set_recovery_enabled b ne = field-set_flags _ ne

field-write_threshold :
    (f : Field) (v a : Bytes) → length v ≡ 8 → rank f ≢ 8 → field f (write 80 v a) ≡ field f a
unfolding put
field-write_threshold f v a h ne = field-put_ne f Field.falcon_required_above v a h ne

pub field-set_falcon_required_above :
    (f : Field) (t : Option ℕ) (a : Bytes)
    → rank f ≢ 3
    → rank f ≢ 8
    → field f (set_falcon_required_above t a) ≡ field f a
unfolding set_falcon_required_above
field-set_falcon_required_above f none a ne ne' =
    field-set_flags f _ _ ne ∙ field-write_threshold f (zeros 8) a (length-zeros 8) ne'
field-set_falcon_required_above f (some v) a ne ne' =
    field-set_flags f _ _ ne
    ∙ field-write_threshold f (to_le_bytes 8 v) a (length-to_le_bytes 8 v) ne'

-- Each setter keeps the length of the buffer.
pub length-set_nonce : (n : ℕ) (a : Bytes) → length (set_nonce n a) ≡ length a
unfolding set_nonce
length-set_nonce n a = length-write 72 (to_le_bytes 8 n) a

pub length-set_flags : (b : ℕ) (a : Bytes) → length (set_flags b a) ≡ length a
unfolding set_flags
length-set_flags b a = length-write 3 (b ∷ []) a

pub length-set_policy : (p : AuthorizationPolicy) (a : Bytes) → length (set_policy p a) ≡ length a
unfolding set_policy
length-set_policy p a = length-write 2 (as_u8 p ∷ []) a

pub length-set_owner_ed25519 : (k a : Bytes) → length (set_owner_ed25519 k a) ≡ length a
unfolding set_owner_ed25519
length-set_owner_ed25519 k a = length-write 8 k a

pub length-set_falcon_public_key_hash :
    (k a : Bytes) → length (set_falcon_public_key_hash k a) ≡ length a
unfolding set_falcon_public_key_hash
length-set_falcon_public_key_hash k a = length-write 40 k a

-- A field that was set reads back, at the values of its type.
module _ (a : Bytes) (fits : length a ≡ 1120) where
  pub nonce-set_nonce : (n : ℕ) → IsU64 n → nonce (set_nonce n a) ≡ n
  unfolding nonce set_nonce
  nonce-set_nonce n h =
      ap from_le_bytes (
        slice-write_self 72 8 (to_le_bytes 8 n) a (omega (arith, length-to_le_bytes)) (omega arith))
      ∙ from_le_bytes-to_le_bytes 8 n h

  pub policy-set_policy : (p : AuthorizationPolicy) → policy (set_policy p a) ≡ ok p
  unfolding policy set_policy
  policy-set_policy p =
      ap (λ b. ok_or (from_u8 b) invalid_account_data) (byte_at-write 2 (as_u8 p) a (omega arith))
      ∙ ap (λ o. ok_or o invalid_account_data) (from_u8-as_u8 p 0).0

  pub flags-set_flags : (b : ℕ) → flags (set_flags b a) ≡ b
  unfolding flags set_flags
  flags-set_flags b = byte_at-write 3 b a (omega arith)

  pub owner_ed25519-set_owner_ed25519 :
      (k : Bytes) → length k ≡ 32 → owner_ed25519 (set_owner_ed25519 k a) ≡ k
  unfolding owner_ed25519 set_owner_ed25519
  owner_ed25519-set_owner_ed25519 k h = slice-write_self 8 32 k a (omega arith) (omega arith)

  pub falcon_public_key_hash-set_self :
      (k : Bytes) → length k ≡ 32 → falcon_public_key_hash (set_falcon_public_key_hash k a) ≡ k
  unfolding falcon_public_key_hash set_falcon_public_key_hash
  falcon_public_key_hash-set_self k h = slice-write_self 40 32 k a (omega arith) (omega arith)

  pub prepared_falcon_public_key-set_self :
      (k : Bytes)
      → length k ≡ 1024
      → prepared_falcon_public_key (set_prepared_falcon_public_key k a) ≡ k
  unfolding prepared_falcon_public_key set_prepared_falcon_public_key
  prepared_falcon_public_key-set_self k h = slice-write_self 96 1024 k a (omega arith) (omega arith)
