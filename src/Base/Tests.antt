-- ===== src/Base/Tests.antt =====
-- Boolean tests on numbers and byte strings, the conditional, and case lemmas.
use Prim.Native.Nat.{ℕ, compare, Ordering}
use mathlib.Core.Path.{◌≡◌, refl}
use mathlib.Core.Logic.{◌↔◌, ◌⊎◌, inl, inr}
use mathlib.Core.Bool.{Bool, true, false, ◌&&◌}
use mathlib.Core.Option.{Option, none, some}
use mathlib.Core.List.{List, [], ◌∷◌}
use native.Mathlib.Omega.{arith}

abbrev pub ltb : ℕ → ℕ → Bool
ltb a b = elim (compare a b) [ Ordering.lt ↦ true | _ ↦ false ]

abbrev pub leb : ℕ → ℕ → Bool
leb a b = elim (compare a b) [ Ordering.gt ↦ false | _ ↦ true ]

infix 50 ◌==◌
abbrev pub ◌==◌ : ℕ → ℕ → Bool
a == b = elim (compare a b) [ Ordering.eq ↦ true | _ ↦ false ]

infix 1 if◌then◌else◌
abbrev pub if◌then◌else◌ {ℓ} : {A : Type ℓ} → Bool → A → A → A
if true then x else y = x
if false then x else y = y

pub ==_iff : (a b : ℕ) → ((a == b) ≡ true) ↔ (a ≡ b)
==_iff a b = ground arith

pub Bool-cases : (b : Bool) → (b ≡ true) ⊎ (b ≡ false)
Bool-cases true = inl refl
Bool-cases false = inr refl

pub Option-cases {ℓ} : {A : Type ℓ} (o : Option A) → (o ≡ none) ⊎ ((a : A) × (o ≡ some a))
Option-cases none = inl refl
Option-cases (some a) = inr (a, refl)

-- A byte string; that its elements are below 256 is `IsBytes`.
abbrev pub Bytes : Type 0
Bytes = List ℕ

infix 50 ◌==ᵇ◌
unfoldable pub ◌==ᵇ◌ : Bytes → Bytes → Bool
[] ==ᵇ [] = true
(x ∷ xs) ==ᵇ (y ∷ ys) = x == y && xs ==ᵇ ys
_ ==ᵇ _ = false

pub ==ᵇ_sound : (xs ys : Bytes) → (xs ==ᵇ ys) ≡ true → xs ≡ ys
unfolding ◌==ᵇ◌
==ᵇ_sound [] [] h = refl
==ᵇ_sound [] (y ∷ ys) h = cc
==ᵇ_sound (x ∷ xs) [] h = cc
==ᵇ_sound (x ∷ xs) (y ∷ ys) h = ground (arith, ==ᵇ_sound xs ys)

pub ==ᵇ_refl : (xs : Bytes) → (xs ==ᵇ xs) ≡ true
unfolding ◌==ᵇ◌
==ᵇ_refl [] = refl
==ᵇ_refl (x ∷ xs) = ground (arith, ==ᵇ_refl xs)

pub ==ᵇ_iff : (xs ys : Bytes) → ((xs ==ᵇ ys) ≡ true) ↔ (xs ≡ ys)
==ᵇ_iff xs ys = (==ᵇ_sound xs ys, λ e. rw e (==ᵇ_refl ys))
