-- ===== src/Base/Layout.antt =====
-- Filling a zeroed buffer field by field, and cutting a concatenation into its parts.
use Prim.Native.Nat.{ℕ, zero, suc, ◌+◌, ◌≤◌}
use mathlib.Core.Path.{◌≡◌, refl, sym, ap, ◌∙◌}
use mathlib.Core.List.{[], ◌∷◌, ◌++◌, append_assoc}
use native.Mathlib.Omega.{arith}
use solana_hybrid_pq_account.Base.Lists.{
  length, take, drop, take-All, drop-All, replicate, length-append, length-replicate,
}
use solana_hybrid_pq_account.Base.Tests.{Bytes}
use solana_hybrid_pq_account.Base.Words.{IsBytes, IsU8}
use solana_hybrid_pq_account.Base.Buffer.{slice, byte_at, write, write-nil}

-- `[0u8; n]`
unfoldable pub zeros : ℕ → Bytes
zeros n = replicate n 0

pub length-zeros : (n : ℕ) → length (zeros n) ≡ n
unfolding zeros
length-zeros n = length-replicate n 0

pub zeros-zero : zeros 0 ≡ []
unfolding zeros
zeros-zero = refl

pub zeros-IsBytes : (n : ℕ) → IsBytes (zeros n)
unfolding zeros
zeros-IsBytes zero = tt
zeros-IsBytes (suc n) = (omega arith, zeros-IsBytes n)

pub write-zeros : (s : Bytes) (n m : ℕ) → n ≡ length s + m → write 0 s (zeros n) ≡ s ++ zeros m
unfolding write zeros
write-zeros [] n m e = write-nil 0 (zeros n) ∙ ap zeros (omega arith)
write-zeros (x ∷ s) zero m e = absurd (omega arith)
write-zeros (x ∷ s) (suc n) m e = ap (λ l. x ∷ l) (write-zeros s n m (omega arith))

pub write-append :
    (p s q : Bytes) (o k : ℕ) → o ≡ length p + k → write o s (p ++ q) ≡ p ++ write k s q
unfolding write
write-append [] s q o k e = ap (λ n. write n s q) (omega arith)
write-append (x ∷ p) s q zero k e = absurd (omega arith)
write-append (x ∷ p) s q (suc o) k e = ap (λ l. x ∷ l) (write-append p s q o k (omega arith))

-- The next field of a buffer that is filled up to `o` and zero from there on.
pub write_next :
    (b p s : Bytes) (o n m : ℕ)
    → b ≡ p ++ zeros n
    → o ≡ length p
    → n ≡ length s + m
    → write o s b ≡ p ++ s ++ zeros m
write_next b p s o n m eb eo en =
    ap (write o s) eb
    ∙ write-append p s (zeros n) o 0 (omega arith)
    ∙ ap (λ l. p ++ l) (write-zeros s n m en)
    ∙ sym (append_assoc p s (zeros m))

zeros-add : (i j l : ℕ) → j ≡ i + l → zeros j ≡ zeros i ++ zeros l
unfolding zeros
zeros-add zero j l e = ap zeros (omega arith)
zeros-add (suc i) zero l e = absurd (omega arith)
zeros-add (suc i) (suc j) l e = ap (λ x. 0 ∷ x) (zeros-add i j l (omega arith))

-- A field that starts `k` bytes further on, over zeros that stay between.
pub write_skip :
    (b p s : Bytes) (o k n m : ℕ)
    → b ≡ p ++ zeros n
    → o ≡ length p + k
    → n ≡ k + length s + m
    → write o s b ≡ p ++ zeros k ++ s ++ zeros m
write_skip b p s o k n m eb eo en =
    write_next b (p ++ zeros k) s o (length s + m) m
      (eb
        ∙ ap (λ l. p ++ l) (zeros-add k n (length s + m) (omega arith))
        ∙ sym (append_assoc p (zeros k) (zeros (length s + m))))
      (omega (arith, length-append p (zeros k), length-zeros k)) (omega arith)

pub take_whole : (xs : Bytes) (n : ℕ) → n ≡ length xs → take n xs ≡ xs
take_whole [] zero e = refl
take_whole [] (suc n) e = absurd (omega arith)
take_whole (x ∷ xs) zero e = absurd (omega arith)
take_whole (x ∷ xs) (suc n) e = ap (λ l. x ∷ l) (take_whole xs n (omega arith))

pub slice-append_left :
    (p q : Bytes) (o n : ℕ) → o + n ≤ length p → slice o n (p ++ q) ≡ slice o n p
unfolding slice
slice-append_left [] q zero zero h = refl
slice-append_left [] q zero (suc n) h = absurd (omega arith)
slice-append_left [] q (suc o) n h = absurd (omega arith)
slice-append_left (x ∷ p) q zero zero h = refl
slice-append_left (x ∷ p) q zero (suc n) h =
    ap (λ l. x ∷ l) (slice-append_left p q zero n (omega arith))
slice-append_left (x ∷ p) q (suc o) n h = slice-append_left p q o n (omega arith)

pub slice-append_right :
    (p q : Bytes) (o k n : ℕ) → o ≡ length p + k → slice o n (p ++ q) ≡ slice k n q
unfolding slice
slice-append_right [] q o k n e = ap (λ i. take n (drop i q)) (omega arith)
slice-append_right (x ∷ p) q zero k n e = absurd (omega arith)
slice-append_right (x ∷ p) q (suc o) k n e = slice-append_right p q o k n (omega arith)

pub slice_whole : (xs : Bytes) (n : ℕ) → n ≡ length xs → slice 0 n xs ≡ xs
unfolding slice
slice_whole xs n e = take_whole xs n e

pub append-cancel : (a b c d : Bytes) → length a ≡ length b → a ++ c ≡ b ++ d → (a ≡ b) × (c ≡ d)
append-cancel [] [] c d h e = (refl, e)
append-cancel [] (y ∷ b) c d h e = absurd (omega arith)
append-cancel (x ∷ a) [] c d h e = absurd (omega arith)
append-cancel (x ∷ a) (y ∷ b) c d h e = ground (arith, append-cancel a b c d (omega arith))

-- As `append-cancel`, from the lengths of the right parts.
pub append-cancel_right :
    (a b c d : Bytes) → length c ≡ length d → a ++ c ≡ b ++ d → (a ≡ b) × (c ≡ d)
append-cancel_right a b c d h e =
    append-cancel a b c d (omega (arith, ap length e, length-append a c, length-append b d)) e

pub byte_at-append_right :
    (p : Bytes) (b : ℕ) (q : Bytes) (o : ℕ) → o ≡ length p → byte_at o (p ++ (b ∷ q)) ≡ b
unfolding byte_at
byte_at-append_right [] b q zero e = refl
byte_at-append_right [] b q (suc o) e = absurd (omega arith)
byte_at-append_right (x ∷ p) b q zero e = absurd (omega arith)
byte_at-append_right (x ∷ p) b q (suc o) e = byte_at-append_right p b q o (omega arith)

-- The first part of a concatenation, and a part in the middle.
pub slice_first : (p q : Bytes) (n : ℕ) → n ≡ length p → slice 0 n (p ++ q) ≡ p
slice_first p q n e = slice-append_left p q 0 n (omega arith) ∙ slice_whole p n e

pub slice_last : (p q : Bytes) (o n : ℕ) → o ≡ length p → n ≡ length q → slice o n (p ++ q) ≡ q
slice_last p q o n e e' = slice-append_right p q o 0 n (omega arith) ∙ slice_whole q n e'

pub slice_middle :
    (p q r : Bytes) (o n : ℕ) → o ≡ length p → n ≡ length q → slice o n (p ++ q ++ r) ≡ q
slice_middle p q r o n e e' =
    slice-append_left (p ++ q) r o n (omega (arith, length-append p q)) ∙ slice_last p q o n e e'

pub slice-IsBytes : (o n : ℕ) (xs : Bytes) → IsBytes xs → IsBytes (slice o n xs)
unfolding slice
slice-IsBytes o n xs h = take-All IsU8 n (drop o xs) (drop-All IsU8 o xs h)

pub byte_at-IsU8 : (i : ℕ) (xs : Bytes) → IsBytes xs → IsU8 (byte_at i xs)
unfolding byte_at
byte_at-IsU8 i [] h = omega arith
byte_at-IsU8 zero (x ∷ xs) h = h.0
byte_at-IsU8 (suc i) (x ∷ xs) h = byte_at-IsU8 i xs h.1

take-zeros : (n m : ℕ) → n ≤ m → take n (zeros m) ≡ zeros n
unfolding zeros
take-zeros zero m h = refl
take-zeros (suc n) zero h = absurd (omega arith)
take-zeros (suc n) (suc m) h = ap (λ l. 0 ∷ l) (take-zeros n m (omega arith))

pub slice-zeros : (o n m : ℕ) → o + n ≤ m → slice o n (zeros m) ≡ zeros n
unfolding slice zeros
slice-zeros zero n m h = take-zeros n m (omega arith)
slice-zeros (suc o) n zero h = absurd (omega arith)
slice-zeros (suc o) n (suc m) h = slice-zeros o n m (omega arith)

pub append-IsBytes : (p q : Bytes) → IsBytes p → IsBytes q → IsBytes (p ++ q)
append-IsBytes [] q h k = k
append-IsBytes (x ∷ p) q h k = (h.0, append-IsBytes p q h.1 k)
