-- ===== src/Program/Instruction.antt =====
-- program/src/instruction.rs: the discriminators.
pub mod Codes
use solana_hybrid_pq_account.Base.{
  ℕ, zero, suc, Bool, true, false, Option, none, some, ◌==◌, if◌then◌else◌,
}

pub data DualKeyInstruction : Type 0 where
  initialize execute rotate_ed25519_key rotate_falcon_key : DualKeyInstruction
  change_policy recover_account set_recovery_config : DualKeyInstruction
  initiate_social_recovery finalize_social_recovery : DualKeyInstruction
  cancel_social_recovery verify_falcon_prepared verify_falcon_raw : DualKeyInstruction
  verify_canonical_digest reconstruct_canonical_digest : DualKeyInstruction

unfoldable pub from_u8 : ℕ → Option DualKeyInstruction
from_u8 value =
    if value == 0
    then some initialize
    else if value == 1
    then some execute
    else if value == 2
    then some rotate_ed25519_key
    else if value == 3
    then some rotate_falcon_key
    else if value == 4
    then some change_policy
    else if value == 5
    then some recover_account
    else if value == 6
    then some set_recovery_config
    else if value == 7
    then some initiate_social_recovery
    else if value == 8
    then some finalize_social_recovery
    else if value == 9
    then some cancel_social_recovery
    else if value == 240
    then some verify_falcon_prepared
    else if value == 241
    then some verify_falcon_raw
    else if value == 242
    then some verify_canonical_digest
    else if value == 243
    then some reconstruct_canonical_digest
    else none

unfoldable pub as_u8 : DualKeyInstruction → ℕ
as_u8 initialize = 0
as_u8 execute = 1
as_u8 rotate_ed25519_key = 2
as_u8 rotate_falcon_key = 3
as_u8 change_policy = 4
as_u8 recover_account = 5
as_u8 set_recovery_config = 6
as_u8 initiate_social_recovery = 7
as_u8 finalize_social_recovery = 8
as_u8 cancel_social_recovery = 9
as_u8 verify_falcon_prepared = 240
as_u8 verify_falcon_raw = 241
as_u8 verify_canonical_digest = 242
as_u8 reconstruct_canonical_digest = 243

unfoldable pub is_verification_harness : DualKeyInstruction → Bool
is_verification_harness verify_falcon_prepared = true
is_verification_harness verify_falcon_raw = true
is_verification_harness verify_canonical_digest = true
is_verification_harness reconstruct_canonical_digest = true
is_verification_harness _ = false
