-- ===== src/Program/Instruction/Codes.antt =====
-- The discriminators round trip.
use solana_hybrid_pq_account.Base.{ℕ, ◌≡◌, ◌↔◌, refl, ap, some, arith, ◌∙◌}
use solana_hybrid_pq_account.Program.Instruction.{
  DualKeyInstruction, initialize, execute, from_u8, as_u8,
}

pub known_code : (ix : DualKeyInstruction) → from_u8 (as_u8 ix) ≡ some ix
unfolding from_u8 as_u8
known_code initialize = refl
known_code execute = refl
known_code _ = refl

code_of : (b : ℕ) (ix : DualKeyInstruction) → from_u8 b ≡ some ix → b ≡ as_u8 ix
unfolding from_u8 as_u8
code_of b initialize h = ground arith
code_of b _ h = ground arith

-- A byte is read as an instruction exactly if it is that instruction's discriminator.
pub from_u8_iff : (b : ℕ) (ix : DualKeyInstruction) → (from_u8 b ≡ some ix) ↔ (b ≡ as_u8 ix)
from_u8_iff b ix = (code_of b ix, λ e. ap from_u8 e ∙ known_code ix)
