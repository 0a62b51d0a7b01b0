-- ===== src/Program/Evaluate.antt =====
-- program/src/auth/policy.rs: evaluation of a requirement on the two verification results.
use solana_hybrid_pq_account.Base.{Bool, true, ◌||◌, ◌≡◌, ◌↔◌, arith}
use solana_hybrid_pq_account.Core.Error.{
  Result, ok, err, ◌>>◌, require, invalid_ed25519, invalid_falcon, policy_rejected,
  policy_not_implemented,
}
use solana_hybrid_pq_account.Core.Policy.{
  SignatureRequirement, either, ed25519, falcon, both, meet, AuthorizationPolicy, ed25519_only,
  falcon_only, hybrid_and, hybrid_or, falcon_for_privileged, falcon_above_threshold,
}

pub record SignatureValidity : Type 0 where
  pub ed25519_valid : Bool
  pub falcon_valid : Bool

unfoldable pub evaluate_requirement : SignatureRequirement → SignatureValidity → Result (Unit {0})
evaluate_requirement ed25519 sigs = require sigs.ed25519_valid invalid_ed25519
evaluate_requirement falcon sigs = require sigs.falcon_valid invalid_falcon
evaluate_requirement both sigs = do
  require sigs.ed25519_valid invalid_ed25519
  require sigs.falcon_valid invalid_falcon
  ok tt
evaluate_requirement either sigs = require (sigs.ed25519_valid || sigs.falcon_valid) policy_rejected

unfoldable pub evaluate_policy : AuthorizationPolicy → SignatureValidity → Result (Unit {0})
evaluate_policy ed25519_only sigs = evaluate_requirement ed25519 sigs
evaluate_policy falcon_only sigs = evaluate_requirement falcon sigs
evaluate_policy hybrid_and sigs = evaluate_requirement both sigs
evaluate_policy hybrid_or sigs = evaluate_requirement either sigs
evaluate_policy falcon_for_privileged sigs = err policy_not_implemented
evaluate_policy falcon_above_threshold sigs = err policy_not_implemented

-- Two signatures satisfy the meet of two requirements exactly if they satisfy both of them: the
-- meet is the weakest requirement that is as strict as either.
pub evaluate_requirement-meet :
    (a b : SignatureRequirement) (sigs : SignatureValidity)
    → (evaluate_requirement (meet a b) sigs ≡ ok tt)
      ↔ ((evaluate_requirement a sigs ≡ ok tt) × (evaluate_requirement b sigs ≡ ok tt))
unfolding evaluate_requirement meet
evaluate_requirement-meet a b sigs = (λ h. ground arith, λ h. ground arith)

-- `HybridAnd` never falls back: it accepts exactly if both signatures are valid.
pub hybrid_and-both :
    (sigs : SignatureValidity)
    → (evaluate_policy hybrid_and sigs ≡ ok tt)
      ↔ ((sigs.ed25519_valid ≡ true) × (sigs.falcon_valid ≡ true))
unfolding evaluate_policy evaluate_requirement
hybrid_and-both sigs = (λ h. ground arith, λ h. ground arith)
