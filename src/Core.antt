-- ===== src/Core.antt =====
-- `core/src`: the types, encodings and account layouts that the program and its client share.
pub mod ChainDomain
pub mod Error
pub mod RecoveryOp
pub mod Intent
pub mod Canonical
pub mod Wire
pub mod Account
pub mod Recovery
pub mod Policy
