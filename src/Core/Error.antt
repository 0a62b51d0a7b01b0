-- ===== src/Core/Error.antt =====
-- core/src/error.rs: the error codes, and Rust's `Result<T, DualKeyError>` with `?` as bind.
use Prim.Native.String.{String}
use solana_hybrid_pq_account.Base.{
  ℕ, ◌≡◌, refl, Bool, true, false, Option, none, some, ◌⊎◌, inl, inr,
}

pub data DualKeyError : Type 0 where
  unimplemented invalid_account_data invalid_pda unsupported_version : DualKeyError
  invalid_nonce intent_expired invalid_ed25519 invalid_falcon : DualKeyError
  policy_rejected malformed_falcon malformed_ed25519_precompile : DualKeyError
  unsupported_action chain_domain_mismatch policy_not_implemented : DualKeyError
  math_overflow insufficient_funds malformed_instruction_data : DualKeyError
  digest_mismatch missing_signer account_already_initialized : DualKeyError
  invalid_program_account : DualKeyError

unfoldable pub code : DualKeyError → ℕ
code unimplemented = 0
code invalid_account_data = 1
code invalid_pda = 2
code unsupported_version = 3
code invalid_nonce = 4
code intent_expired = 5
code invalid_ed25519 = 6
code invalid_falcon = 7
code policy_rejected = 8
code malformed_falcon = 9
code malformed_ed25519_precompile = 10
code unsupported_action = 11
code chain_domain_mismatch = 12
code policy_not_implemented = 13
code math_overflow = 14
code insufficient_funds = 15
code malformed_instruction_data = 16
code digest_mismatch = 17
code missing_signer = 18
code account_already_initialized = 19
code invalid_program_account = 20

-- `impl Display for DualKeyError`
unfoldable pub display : DualKeyError → String
display unimplemented = "unimplemented"
display invalid_account_data = "invalid account data"
display invalid_pda = "invalid PDA"
display unsupported_version = "unsupported version"
display invalid_nonce = "invalid nonce"
display intent_expired = "intent expired"
display invalid_ed25519 = "invalid Ed25519 signature"
display invalid_falcon = "invalid Falcon signature"
display policy_rejected = "authorization policy rejected"
display malformed_falcon = "malformed Falcon material"
display malformed_ed25519_precompile = "malformed Ed25519 precompile"
display unsupported_action = "unsupported action"
display chain_domain_mismatch = "chain domain mismatch"
display policy_not_implemented = "policy not implemented"
display math_overflow = "math overflow"
display insufficient_funds = "insufficient funds"
display malformed_instruction_data = "malformed instruction data"
display digest_mismatch = "canonical digest mismatch"
display missing_signer = "missing required signature"
display account_already_initialized = "account already initialized"
display invalid_program_account = "invalid program account"

pub data Result {ℓ} (T : Type ℓ) : Type ℓ where
  err : DualKeyError → Result T
  ok : T → Result T

infixl 5 ◌>>=◌ ◌>>◌
-- `r?`, with the rest of the function behind it.
abbrev pub ◌>>=◌ {ℓ κ} : {T : Type ℓ} {U : Type κ} → Result T → (T → Result U) → Result U
err failure >>= rest = err failure
ok value >>= rest = rest value

-- `r?;`
abbrev pub ◌>>◌ {ℓ} : {U : Type ℓ} → Result (Unit {0}) → Result U → Result U
err failure >> rest = err failure
ok done >> rest = rest

-- `if !test { return Err(e) }`
abbrev pub require : Bool → DualKeyError → Result (Unit {0})
require true e = ok tt
require false e = err e

-- `if test { return Err(e) }`
abbrev pub refuse : Bool → DualKeyError → Result (Unit {0})
refuse true e = err e
refuse false e = ok tt

-- `.ok_or(e)?`
abbrev pub ok_or {ℓ} : {A : Type ℓ} → Option A → DualKeyError → Result A
ok_or none e = err e
ok_or (some a) e = ok a

-- `.is_ok()`
abbrev pub is_ok {ℓ} : {A : Type ℓ} → Result A → Bool
is_ok (ok a) = true
is_ok (err e) = false

pub Result-cases {ℓ} :
    {A : Type ℓ} (r : Result A) → ((a : A) × (r ≡ ok a)) ⊎ ((e : DualKeyError) × (r ≡ err e))
Result-cases (ok a) = inl (a, refl)
Result-cases (err e) = inr (e, refl)
