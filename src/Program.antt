-- ===== src/Program.antt =====
-- The on-chain program, program/src.
pub mod Runtime
pub mod Ed25519
pub mod Falcon
pub mod Evaluate
pub mod Reconstruct
pub mod Authorize
pub mod Pda
pub mod SplToken
pub mod Execute
pub mod ChangePolicy
pub mod SocialRecovery
pub mod Recover
pub mod Rotate
pub mod Initialize
pub mod Instruction
pub mod Processor
pub mod Replay
