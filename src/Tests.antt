-- ===== src/Tests.antt =====
-- Tests: runs of the model at concrete inputs, and the properties at inputs that meet their
-- conditions.
pub mod Fixture
pub mod Runs
pub mod Crates
pub mod Keygen
mod Commands
mod Transfers
mod Keys
mod RecoverAccount
mod Recovery
mod Reconfigure
mod Creation
mod Laws
mod Signatures
mod Tokens
mod Client
mod Submission
