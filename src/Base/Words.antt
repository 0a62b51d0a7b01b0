-- ===== src/Base/Words.antt =====
-- `to_le_bytes` and `from_le_bytes` of an unsigned integer of `k` bytes, for every `k`.
use Prim.Native.Nat.{ℕ, zero, suc, ◌+◌, ◌*◌, ◌/◌, ◌%◌, ◌^◌, ◌<◌}
use mathlib.Core.Path.{◌≡◌, refl, ap, ap₂, ◌∙◌}
use mathlib.Core.List.{[], ◌∷◌}
use native.Mathlib.Omega.{arith}
use native.Mathlib.Nat.{pow-suc}
use solana_hybrid_pq_account.Base.Lists.{length, All}
use solana_hybrid_pq_account.Base.Tests.{Bytes}

abbrev pub IsU8 : ℕ → Type 0
IsU8 n = n < 256

abbrev pub IsU32 : ℕ → Type 0
IsU32 n = n < 2 ^ 32

abbrev pub IsU64 : ℕ → Type 0
IsU64 n = n < 2 ^ 64

abbrev pub IsBytes : Bytes → Type 0
IsBytes = All IsU8

unfoldable pub to_le_bytes : ℕ → ℕ → Bytes
to_le_bytes zero n = []
to_le_bytes (suc k) n = (n % 256) ∷ to_le_bytes k (n / 256)

unfoldable pub from_le_bytes : Bytes → ℕ
from_le_bytes [] = 0
from_le_bytes (b ∷ bs) = b + 256 * from_le_bytes bs

pub length-to_le_bytes : (k n : ℕ) → length (to_le_bytes k n) ≡ k
unfolding to_le_bytes
length-to_le_bytes zero n = refl
length-to_le_bytes (suc k) n = ap suc (length-to_le_bytes k (n / 256))

pub to_le_bytes-IsBytes : (k n : ℕ) → IsBytes (to_le_bytes k n)
unfolding to_le_bytes
to_le_bytes-IsBytes zero n = tt
to_le_bytes-IsBytes (suc k) n = (omega arith, to_le_bytes-IsBytes k (n / 256))

pub from_le_bytes-to_le_bytes : (k n : ℕ) → n < 256 ^ k → from_le_bytes (to_le_bytes k n) ≡ n
unfolding to_le_bytes from_le_bytes
from_le_bytes-to_le_bytes zero n h = omega arith
from_le_bytes-to_le_bytes (suc k) n h =
    omega (arith, from_le_bytes-to_le_bytes k (n / 256) (omega (arith, pow-suc 256 k)))

pub from_le_bytes-lt : (bs : Bytes) → IsBytes bs → from_le_bytes bs < 256 ^ length bs
unfolding from_le_bytes
from_le_bytes-lt [] h = omega arith
from_le_bytes-lt (b ∷ bs) h = omega (arith, from_le_bytes-lt bs h.1, pow-suc 256 (length bs))

pub to_le_bytes-from_le_bytes :
    (bs : Bytes) → IsBytes bs → to_le_bytes (length bs) (from_le_bytes bs) ≡ bs
unfolding to_le_bytes from_le_bytes
to_le_bytes-from_le_bytes [] h = refl
to_le_bytes-from_le_bytes (b ∷ bs) h =
    ap₂ (λ x l. x ∷ l) (omega arith)
      (ap (to_le_bytes (length bs)) (omega arith) ∙ to_le_bytes-from_le_bytes bs h.1)
