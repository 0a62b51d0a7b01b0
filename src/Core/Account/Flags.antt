-- ===== src/Core/Account/Flags.antt =====
-- The two flags share one byte: setting or clearing one keeps the other and all further bits.
use Prim.Native.Nat.{bit_and, bit_or}
use native.Mathlib.Decide.{ℕ_discrete}
use solana_hybrid_pq_account.Base.{
  ℕ, zero, suc, ◌-◌, ◌%◌, ◌<◌, ◌≡◌, refl, Bool, true, ◌&&◌, ◌||◌, arith, ◌==◌,
}
use solana_hybrid_pq_account.Base.Words.{IsU8}
use solana_hybrid_pq_account.Core.Account.{without}

-- A test that holds of the bytes below `k`, decided by trying them from the top.
every_byte : (ℕ → Bool) → ℕ → Bool
every_byte test zero = true
every_byte test (suc k) = every_byte test k && test k

every_byte-lt :
    (test : ℕ → Bool) (k : ℕ) → every_byte test k ≡ true → (f : ℕ) → f < k → test f ≡ true
unfolding every_byte
every_byte-lt test zero passed f below = absurd (omega arith)
every_byte-lt test (suc k) passed f below = elim (ℕ_discrete f k) [
  | yes top ↦ rw top (ground arith)
  | no lower ↦ every_byte-lt test k (ground arith) f (omega arith)
]

-- What the operations on flag `g` do to the byte: `g` itself, and every other bit.
abbrev flag_test : ℕ → ℕ → Bool
flag_test g f =
    bit_and (bit_or f g) g == g
    && bit_and (bit_or f g) (without g) == bit_and f (without g)
    && bit_and (bit_and f (without g)) g == 0
    && bit_or f g == bit_or f g % 256
    && bit_and f (without g) == bit_and f (without g) % 256
    && (bit_and f 1 == 0 || bit_and f 1 == 1)
    && (bit_and f 2 == 0 || bit_and f 2 == 2)
    && bit_and (bit_or f g) (3 - g) == bit_and f (3 - g)
    && bit_and (bit_and f (without g)) (3 - g) == bit_and f (3 - g)

recovery_table : every_byte (flag_test 1) 256 ≡ true
unfolding every_byte
recovery_table = refl

threshold_table : every_byte (flag_test 2) 256 ≡ true
unfolding every_byte
threshold_table = refl

module _ (f : ℕ) (byte : IsU8 f) where
  pub recovery_flag :
      (bit_and (bit_or f 1) 1 ≡ 1)
      × (bit_and (bit_and f 254) 1 ≡ 0)
      × (bit_and (bit_or f 1) 2 ≡ bit_and f 2)
      × (bit_and (bit_and f 254) 2 ≡ bit_and f 2)
      × IsU8 (bit_or f 1)
      × IsU8 (bit_and f 254)
  recovery_flag = ground (arith, every_byte-lt (flag_test 1) 256 recovery_table f byte)

  pub threshold_flag :
      (bit_and (bit_or f 2) 2 ≡ 2)
      × (bit_and (bit_and f 253) 2 ≡ 0)
      × (bit_and (bit_or f 2) 1 ≡ bit_and f 1)
      × (bit_and (bit_and f 253) 1 ≡ bit_and f 1)
      × IsU8 (bit_or f 2)
      × IsU8 (bit_and f 253)
  threshold_flag = ground (arith, every_byte-lt (flag_test 2) 256 threshold_table f byte)
