-- ===== src/Core/RecoveryOp.antt =====
-- core/src/intent.rs: the sub-operations of `RecoverAccount`.
use solana_hybrid_pq_account.Base.{ℕ, Option, none, some, ◌==◌, if◌then◌else◌}

pub data RecoveryOp : Type 0 where
  enable disable rotate_ed25519 : RecoveryOp

unfoldable pub from_u8 : ℕ → Option RecoveryOp
from_u8 value =
    if value == 0
    then some enable
    else if value == 1
    then some disable
    else if value == 2
    then some rotate_ed25519
    else none

unfoldable pub as_u8 : RecoveryOp → ℕ
as_u8 enable = 0
as_u8 disable = 1
as_u8 rotate_ed25519 = 2
