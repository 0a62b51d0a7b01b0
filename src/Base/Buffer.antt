-- ===== src/Base/Buffer.antt =====
-- Byte buffers: `data[o..o + n]`, `data[o]`, and `data[o..o + n].copy_from_slice(src)`.
-- The source panics where such a range ends behind the buffer; here a read then returns what
-- there is and a write stops at the end. Every caller has tested the buffer's length before.
use Prim.Native.Nat.{ℕ, zero, suc, ◌+◌, ◌≤◌}
use mathlib.Core.Path.{◌≡◌, refl, ap}
use mathlib.Core.List.{[], ◌∷◌}
use native.Mathlib.Omega.{arith}
use solana_hybrid_pq_account.Base.Lists.{length, get_or, take, drop, length-take, length-drop}
use solana_hybrid_pq_account.Base.Tests.{Bytes}

unfoldable pub slice : ℕ → ℕ → Bytes → Bytes
slice o n xs = take n (drop o xs)

unfoldable pub byte_at : ℕ → Bytes → ℕ
byte_at i xs = get_or xs i 0

unfoldable pub write : ℕ → Bytes → Bytes → Bytes
write o src [] = []
write zero [] (x ∷ xs) = x ∷ xs
write zero (s ∷ src) (x ∷ xs) = s ∷ write zero src xs
write (suc o) src (x ∷ xs) = x ∷ write o src xs

pub length-write : (o : ℕ) (src xs : Bytes) → length (write o src xs) ≡ length xs
unfolding write
length-write o src [] = refl
length-write zero [] (x ∷ xs) = refl
length-write zero (s ∷ src) (x ∷ xs) = ap suc (length-write zero src xs)
length-write (suc o) src (x ∷ xs) = ap suc (length-write o src xs)

pub length-slice : (o n : ℕ) (xs : Bytes) → o + n ≤ length xs → length (slice o n xs) ≡ n
unfolding slice
length-slice o n xs h = length-take n (drop o xs) (omega (arith, length-drop o xs))

pub write-nil : (o : ℕ) (xs : Bytes) → write o [] xs ≡ xs
unfolding write
write-nil o [] = refl
write-nil zero (x ∷ xs) = refl
write-nil (suc o) (x ∷ xs) = ap (λ l. x ∷ l) (write-nil o xs)

take-nil : (n : ℕ) → take {A = ℕ} n [] ≡ []
take-nil zero = refl
take-nil (suc n) = refl

-- A range that was just written reads back.
pub slice-write_self :
    (o n : ℕ) (src xs : Bytes)
    → n ≡ length src
    → o + n ≤ length xs
    → slice o n (write o src xs) ≡ src
unfolding slice write
slice-write_self zero zero [] xs e h = refl
slice-write_self zero zero (s ∷ src) xs e h = absurd (omega arith)
slice-write_self zero (suc n) [] xs e h = absurd (omega arith)
slice-write_self zero (suc n) (s ∷ src) [] e h = absurd (omega arith)
slice-write_self zero (suc n) (s ∷ src) (x ∷ xs) e h =
    ap (λ l. s ∷ l) (slice-write_self zero n src xs (omega arith) (omega arith))
slice-write_self (suc o) n src [] e h = absurd (omega arith)
slice-write_self (suc o) n src (x ∷ xs) e h =
    slice-write_self o n src xs (omega arith) (omega arith)

-- A range before or behind the written one is left alone.
pub slice-write_before :
    (o n p : ℕ) (src xs : Bytes) → o + n ≤ p → slice o n (write p src xs) ≡ slice o n xs
unfolding slice write
slice-write_before o n p src [] h = refl
slice-write_before zero zero p src (x ∷ xs) h = refl
slice-write_before zero (suc n) zero src (x ∷ xs) h = absurd (omega arith)
slice-write_before zero (suc n) (suc p) src (x ∷ xs) h =
    ap (λ l. x ∷ l) (slice-write_before zero n p src xs (omega arith))
slice-write_before (suc o) n zero src (x ∷ xs) h = absurd (omega arith)
slice-write_before (suc o) n (suc p) src (x ∷ xs) h = slice-write_before o n p src xs (omega arith)

pub slice-write_after :
    (o n p : ℕ) (src xs : Bytes) → p + length src ≤ o → slice o n (write p src xs) ≡ slice o n xs
unfolding slice write
slice-write_after o n p src [] h = refl
slice-write_after o n zero [] (x ∷ xs) h = refl
slice-write_after zero n zero (s ∷ src) (x ∷ xs) h = absurd (omega arith)
slice-write_after (suc o) n zero (s ∷ src) (x ∷ xs) h =
    slice-write_after o n zero src xs (omega arith)
slice-write_after zero n (suc p) src (x ∷ xs) h = absurd (omega arith)
slice-write_after (suc o) n (suc p) src (x ∷ xs) h = slice-write_after o n p src xs (omega arith)

-- One byte is a range of length one.
pub byte_at-slice : (i : ℕ) (xs : Bytes) → byte_at i xs ≡ byte_at 0 (slice i 1 xs)
unfolding byte_at slice
byte_at-slice zero [] = refl
byte_at-slice zero (x ∷ xs) = refl
byte_at-slice (suc i) [] = refl
byte_at-slice (suc i) (x ∷ xs) = byte_at-slice i xs

pub byte_at-slice_first : (o n : ℕ) (xs : Bytes) → 1 ≤ n → byte_at 0 (slice o n xs) ≡ byte_at o xs
unfolding byte_at slice
byte_at-slice_first o zero xs h = absurd (omega arith)
byte_at-slice_first zero (suc n) [] h = refl
byte_at-slice_first zero (suc n) (x ∷ xs) h = refl
byte_at-slice_first (suc o) (suc n) [] h = refl
byte_at-slice_first (suc o) (suc n) (x ∷ xs) h = byte_at-slice_first o (suc n) xs h
