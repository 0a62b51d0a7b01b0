-- ===== src/Core/Policy.antt =====
-- core/src/policy.rs: the six policies and the lattice of signature requirements.
pub mod Laws
use Prim.Native.String.{String}
use text.Mathlib.Text.{◌==◌ as str_eq}
use mathlib.Core.Option.{get_or}
use solana_hybrid_pq_account.Base.{
  ℕ, Bool, true, false, Option, none, some, List, [], ◌∷◌, ltb, ◌==◌, if◌then◌else◌,
}
use solana_hybrid_pq_account.Core.Intent.{Action, transfer_sol, transfer_spl, is_privileged}

pub data AuthorizationPolicy : Type 0 where
  ed25519_only falcon_only hybrid_and hybrid_or : AuthorizationPolicy
  falcon_for_privileged falcon_above_threshold : AuthorizationPolicy

pub data SignatureRequirement : Type 0 where
  either ed25519 falcon both : SignatureRequirement

unfoldable pub meet : SignatureRequirement → SignatureRequirement → SignatureRequirement
meet both _ = both
meet _ both = both
meet ed25519 falcon = both
meet falcon ed25519 = both
meet ed25519 ed25519 = ed25519
meet ed25519 either = ed25519
meet either ed25519 = ed25519
meet falcon falcon = falcon
meet falcon either = falcon
meet either falcon = falcon
meet either either = either

unfoldable pub from_u8 : ℕ → Option AuthorizationPolicy
from_u8 value =
    if value == 0
    then some ed25519_only
    else if value == 1
    then some falcon_only
    else if value == 2
    then some hybrid_and
    else if value == 3
    then some hybrid_or
    else if value == 4
    then some falcon_for_privileged
    else if value == 5
    then some falcon_above_threshold
    else none

unfoldable pub as_u8 : AuthorizationPolicy → ℕ
as_u8 ed25519_only = 0
as_u8 falcon_only = 1
as_u8 hybrid_and = 2
as_u8 hybrid_or = 3
as_u8 falcon_for_privileged = 4
as_u8 falcon_above_threshold = 5

unfoldable pub is_implemented : AuthorizationPolicy → Bool
is_implemented ed25519_only = true
is_implemented falcon_only = true
is_implemented hybrid_and = true
is_implemented hybrid_or = true
is_implemented falcon_for_privileged = true
is_implemented falcon_above_threshold = true

unfoldable pub name : AuthorizationPolicy → String
name ed25519_only = "ed25519-only"
name falcon_only = "falcon-only"
name hybrid_and = "hybrid-and"
name hybrid_or = "hybrid-or"
name falcon_for_privileged = "falcon-for-privileged"
name falcon_above_threshold = "falcon-above-threshold"

-- `.into_iter().find(|p| p.name() == name)`
unfoldable pub find_name : String → List AuthorizationPolicy → Option AuthorizationPolicy
unfolding name
find_name wanted [] = none
find_name wanted (p ∷ ps) = if str_eq (name p) wanted then some p else find_name wanted ps

unfoldable pub from_name : String → Option AuthorizationPolicy
unfolding find_name
from_name wanted = find_name wanted (
    ed25519_only ∷ falcon_only ∷ hybrid_and ∷ hybrid_or ∷ falcon_for_privileged
    ∷ falcon_above_threshold ∷ [])

-- The comparison of the threshold mode; an unset threshold counts as 0.
unfoldable pub above_threshold : ℕ → Option ℕ → SignatureRequirement
above_threshold amount threshold = if ltb (get_or threshold 0) amount then falcon else ed25519

unfoldable pub signature_requirement :
    AuthorizationPolicy → Action → Option ℕ → SignatureRequirement
unfolding is_privileged above_threshold
signature_requirement ed25519_only action threshold = ed25519
signature_requirement falcon_only action threshold = falcon
signature_requirement hybrid_and action threshold = both
signature_requirement hybrid_or action threshold = either
signature_requirement falcon_for_privileged action threshold =
    if is_privileged action then falcon else ed25519
signature_requirement falcon_above_threshold (transfer_sol _ lamports) threshold =
    above_threshold lamports threshold
signature_requirement falcon_above_threshold (transfer_spl _ amount) threshold =
    above_threshold amount threshold
signature_requirement falcon_above_threshold _ threshold = falcon
