-- ===== src/Core/Policy/Laws.antt =====
-- Laws of the policy encodings and of the requirement that a policy makes.
use solana_hybrid_pq_account.Base.{ℕ, ◌≡◌, ◌↔◌, refl, Option, none, some, arith, ◌≤◌}
use solana_hybrid_pq_account.Core.Intent.{transfer_sol}
use solana_hybrid_pq_account.Core.Policy.{
  AuthorizationPolicy, ed25519_only, falcon_above_threshold, from_u8, as_u8, name, from_name,
  SignatureRequirement, meet, either, falcon, signature_requirement,
}

-- Every policy reads back from the byte that encodes it, and a byte that is accepted is the one
-- that encodes the policy it reads as; so exactly the bytes below 6 are accepted.
pub from_u8-as_u8 :
    (p : AuthorizationPolicy) (b : ℕ)
    → (from_u8 (as_u8 p) ≡ some p)
      × (from_u8 b ≡ some p → as_u8 p ≡ b)
      × ((from_u8 b ≡ none) ↔ (6 ≤ b))
unfolding from_u8 as_u8
from_u8-as_u8 p b = (round p, back p b, (λ h. ground arith, λ h. ground arith))
  where
    round : (q : AuthorizationPolicy) → from_u8 (as_u8 q) ≡ some q
    round ed25519_only = refl
    round _ = refl

    back : (q : AuthorizationPolicy) (c : ℕ) → from_u8 c ≡ some q → as_u8 q ≡ c
    back ed25519_only c h = ground arith
    back _ c h = ground arith

-- Every policy is found again by its name.
pub from_name-name : (p : AuthorizationPolicy) → from_name (name p) ≡ some p
unfolding from_name
from_name-name ed25519_only = refl
from_name-name _ = refl

-- `meet` is a semilattice with `either` as its unit.
pub meet_semilattice :
    (a b c : SignatureRequirement)
    → (meet a a ≡ a)
      × (meet a b ≡ meet b a)
      × (meet (meet a b) c ≡ meet a (meet b c))
      × (meet either a ≡ a)
unfolding meet
meet_semilattice a b c = ground arith

-- Raising the amount of a transfer never weakens what the threshold policy asks for: once
-- Falcon is required it stays required.
pub threshold_monotone :
    (recipient : _) (l m : ℕ) (threshold : Option ℕ)
    → l ≤ m
    → signature_requirement falcon_above_threshold (transfer_sol recipient l) threshold ≡ falcon
    → signature_requirement falcon_above_threshold (transfer_sol recipient m) threshold ≡ falcon
unfolding signature_requirement
threshold_monotone recipient l m threshold h e = ground arith
