-- ===== src/Client/Error.antt =====
-- client/src/error.rs: the client's errors, and its `Result<T>` with `?` as bind. An error of
-- another crate is kept as its text.
use Prim.Native.String.{String}
use solana_hybrid_pq_account.Base.{
  ℕ, ◌≡◌, refl, Bool, true, false, Option, none, some, ◌⊎◌, inl, inr,
}

pub data ClientError : Type 0 where
  -- what, milestone
  unimplemented : String → ℕ → ClientError
  -- path, source
  io : String → String → ClientError
  -- path, expected, actual
  key_file_length : String → ℕ → ℕ → ClientError
  ed25519_key falcon_key : String → ClientError
  -- actual, max
  falcon_signature_too_long : ℕ → ℕ → ClientError
  -- path, reason
  intent_format : String → String → ClientError
  json : String → ClientError
  -- field, source
  hex : String → String → ClientError
  verification_failed : String → ClientError
  -- field
  invalid_address : String → ClientError
  pda_derivation : ClientError
  -- policy
  policy_not_implemented : ℕ → ClientError
  rpc : String → ClientError

pub data Result {ℓ} (T : Type ℓ) : Type ℓ where
  err : ClientError → Result T
  ok : T → Result T

infixl 5 ◌>>=◌ ◌>>◌
-- `r?`, with the rest of the function behind it.
abbrev pub ◌>>=◌ {ℓ κ} : {T : Type ℓ} {U : Type κ} → Result T → (T → Result U) → Result U
err failure >>= rest = err failure
ok value >>= rest = rest value

-- `r?;`
abbrev pub ◌>>◌ {ℓ} : {U : Type ℓ} → Result (Unit {0}) → Result U → Result U
err failure >> rest = err failure
ok done >> rest = rest

-- `if !test { return Err(e) }`
abbrev pub require : Bool → ClientError → Result (Unit {0})
require true e = ok tt
require false e = err e

-- `.ok_or(e)?`
abbrev pub ok_or {ℓ} : {A : Type ℓ} → Option A → ClientError → Result A
ok_or none e = err e
ok_or (some a) e = ok a

pub Result-cases {ℓ} :
    {A : Type ℓ} (r : Result A) → ((a : A) × (r ≡ ok a)) ⊎ ((e : ClientError) × (r ≡ err e))
Result-cases (ok a) = inl (a, refl)
Result-cases (err e) = inr (e, refl)

-- What a successful `?` has found, and that the rest of the function succeeded on it.
pub >>=-eq-ok {ℓ κ} :
    {T : Type ℓ} {U : Type κ} (first : Result T) (rest : T → Result U) {result : U}
    → (first >>= rest) ≡ ok result
    → (value : T) × (first ≡ ok value) × (rest value ≡ ok result)
>>=-eq-ok (err failure) rest succeeded = absurd (cc)
>>=-eq-ok (ok value) rest succeeded = (value, refl, succeeded)

pub ok-injective {ℓ} : {A : Type ℓ} {a b : A} → ok a ≡ ok b → a ≡ b
ok-injective h = cc
