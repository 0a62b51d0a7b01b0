-- ===== src/Program/Authorize/Requirement.antt =====
-- The requirement that `authorize` enforces, by the policy, the flags and the action.
use solana_hybrid_pq_account.Base.{
  ℕ, ◌≡◌, ◌⊎◌, ◌↔◌, inl, inr, refl, Bool, true, Option, some, Bytes, arith,
}
use solana_hybrid_pq_account.Core.Error.{ok}
use solana_hybrid_pq_account.Core.RecoveryOp.{enable, disable, rotate_ed25519}
use solana_hybrid_pq_account.Core.Intent.{
  Action, transfer_sol, transfer_spl, recover_account, change_policy, is_privileged,
}
use solana_hybrid_pq_account.Core.Policy.{
  SignatureRequirement, falcon, both, meet, AuthorizationPolicy, ed25519_only, hybrid_and,
  hybrid_or, from_u8, signature_requirement,
}
use solana_hybrid_pq_account.Program.Evaluate.{
  SignatureValidity, evaluate_requirement, evaluate_requirement-meet,
}
use solana_hybrid_pq_account.Program.Authorize.{effective_requirement, resulting_threshold}

-- A change of policy needs signatures that satisfy the current policy and the new one, at the
-- threshold that the change would store; so neither a weak current policy nor a weak target is a
-- way round the other.
pub change_policy-stricter :
    (current : AuthorizationPolicy) (threshold : Option ℕ) (enabled : Bool) (b t : ℕ)
    (target : AuthorizationPolicy) (req : SignatureRequirement) (sigs : SignatureValidity)
    → from_u8 b ≡ some target
    → effective_requirement current threshold enabled (change_policy b t) ≡ ok req
    → (evaluate_requirement req sigs ≡ ok tt) ↔ (
        (evaluate_requirement (signature_requirement current (change_policy b t) threshold) sigs
          ≡ ok tt)
        × (evaluate_requirement
              (signature_requirement target (change_policy b t) (resulting_threshold target t))
              sigs
            ≡ ok tt))
unfolding effective_requirement
change_policy-stricter current threshold enabled b t target req sigs known h =
    let met : req
        ≡ meet (signature_requirement current (change_policy b t) threshold)
            (signature_requirement target (change_policy b t) (resulting_threshold target t)) =
      ground arith in
    rw met (
      evaluate_requirement-meet (signature_requirement current (change_policy b t) threshold)
        (signature_requirement target (change_policy b t) (resulting_threshold target t)) sigs)

-- Under `HybridAnd` every action needs both signatures, with one exception: a recovery rotation
-- on an account that has opted in needs Falcon alone.
pub hybrid_and-requirement :
    (threshold : Option ℕ) (enabled : Bool) (action : Action) (req : SignatureRequirement)
    → effective_requirement hybrid_and threshold enabled action ≡ ok req
    → (req ≡ both)
      ⊎ ((key : Bytes) × (action ≡ recover_account rotate_ed25519 key)
          × (enabled ≡ true)
          × (req ≡ falcon))
unfolding effective_requirement signature_requirement meet
hybrid_and-requirement threshold enabled (recover_account rotate_ed25519 key) req h =
    inr (key, refl, ground arith, ground arith)
hybrid_and-requirement threshold enabled (change_policy b t) req h = inl (ground arith)
hybrid_and-requirement threshold enabled (recover_account enable key) req h = inl (ground arith)
hybrid_and-requirement threshold enabled (recover_account disable key) req h = inl (ground arith)
hybrid_and-requirement threshold enabled (transfer_sol r l) req h = inl (ground arith)
hybrid_and-requirement threshold enabled _ req h = inl (ground arith)

-- The policies that trust Ed25519 alone with a privileged action.
abbrev pub TrustsEd25519 : AuthorizationPolicy → Type 0
TrustsEd25519 ed25519_only = Unit {0}
TrustsEd25519 hybrid_or = Unit {0}
TrustsEd25519 _ = ⊥

-- Under the four other policies no privileged action passes without a valid Falcon signature,
-- whatever the flags and the threshold, a policy change included.
pub privileged-needs-falcon :
    (p : AuthorizationPolicy) (threshold : Option ℕ) (enabled : Bool) (action : Action)
    (req : SignatureRequirement) (sigs : SignatureValidity)
    → ¬ (TrustsEd25519 p)
    → is_privileged action ≡ true
    → effective_requirement p threshold enabled action ≡ ok req
    → evaluate_requirement req sigs ≡ ok tt
    → sigs.falcon_valid ≡ true
unfolding effective_requirement signature_requirement meet evaluate_requirement is_privileged
privileged-needs-falcon ed25519_only threshold enabled action req sigs n priv h e = absurd (n tt)
privileged-needs-falcon hybrid_or threshold enabled action req sigs n priv h e = absurd (n tt)
privileged-needs-falcon p threshold enabled (transfer_sol r l) req sigs n priv h e = cc
privileged-needs-falcon p threshold enabled (transfer_spl r l) req sigs n priv h e = cc
privileged-needs-falcon p threshold enabled (recover_account rotate_ed25519 k) req sigs n priv h e =
    ground arith
privileged-needs-falcon p threshold enabled (change_policy b t) req sigs n priv h e = ground arith
privileged-needs-falcon p threshold enabled action req sigs n priv h e = ground arith
