-- ===== src/Client/Machine/Success.antt =====
-- What a sequence of steps that succeeds has gone through, and what its changes of one file leave.
use Prim.Native.String.{String}
use text.Mathlib.TextPositions.{eq_refl}
use solana_hybrid_pq_account.Base.{
  ◌≡◌, refl, ap, Bool, true, false, Option, none, some, if◌then◌else◌,
}
use solana_hybrid_pq_account.Client.Error.{Result, ok, err}
use solana_hybrid_pq_account.Client.Machine.{
  FilePath, File, Machine, M, path_eq, continue, ◌>>=◌, lift, os_call, change,
}

pub path_eq_refl : (p : FilePath) → path_eq p p ≡ true
path_eq_refl p = rw (eq_refl p.name, eq_refl p.dir) refl

continue-eq-ok {ℓ κ} :
    {A : Type ℓ} {B : Type κ} (r : Result A × Machine) (rest : A → M B) {b : B} {m' : Machine}
    → continue r rest ≡ (ok b, m')
    → (a : A) × (m₁ : Machine) × (r ≡ (ok a, m₁)) × (rest a m₁ ≡ (ok b, m'))
continue-eq-ok (ok a, m₁) rest succeeded = (a, m₁, refl, succeeded)
continue-eq-ok (err e, m₁) rest succeeded = absurd (cc)

pub >>=-eq-ok {ℓ κ} :
    {A : Type ℓ} {B : Type κ} (first : M A) (rest : A → M B) {b : B} {m m' : Machine}
    → (first >>= rest) m ≡ (ok b, m')
    → (a : A) × (m₁ : Machine) × (first m ≡ (ok a, m₁)) × (rest a m₁ ≡ (ok b, m'))
>>=-eq-ok first rest {m} succeeded = continue-eq-ok (first m) rest succeeded

-- A result that is used without a change of the machine.
pub lift->>=-eq-ok {ℓ κ} :
    {A : Type ℓ} {B : Type κ} (r : Result A) (rest : A → M B) (m : Machine) {b : B} {m' : Machine}
    → (lift r >>= rest) m ≡ (ok b, m')
    → (a : A) × (r ≡ ok a) × (rest a m ≡ (ok b, m'))
lift->>=-eq-ok (ok a) rest m succeeded = (a, refl, succeeded)
lift->>=-eq-ok (err e) rest m succeeded = absurd (cc)

pub os_call-eq-ok :
    (shown : String) (refused : Option String) (done failed : Machine → Machine) {m m' : Machine}
    → os_call shown refused done failed m ≡ (ok tt, m')
    → done m ≡ m'
os_call-eq-ok shown none done failed succeeded = cc
os_call-eq-ok shown (some text) done failed succeeded = absurd (cc)

pub lift-eq-ok {ℓ} :
    {A : Type ℓ} (r : Result A) {a : A} {m m' : Machine}
    → lift r m ≡ (ok a, m')
    → (r ≡ ok a) × (m ≡ m')
lift-eq-ok r succeeded = (ap (λ s. s.0) succeeded, ap (λ s. s.1) succeeded)

-- Two changes of one file are one.
change_at :
    (test : Bool) (f g : Option File → Option File) (o : Option File)
    → (if test then f (if test then g o else o) else (if test then g o else o))
      ≡ (if test then f (g o) else o)
change_at false f g o = refl
change_at true f g o = refl

pub change-change :
    (p : FilePath) (f g : Option File → Option File) (m : Machine)
    → change p f (change p g m) ≡ change p (λ o. f (g o)) m
change-change p f g m = λ i. record m { files = λ q. change_at (path_eq q p) f g (m.files q) i }
