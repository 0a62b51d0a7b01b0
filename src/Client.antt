-- ===== src/Client.antt =====
-- The client: client/src, one module per file.
pub mod Error
pub mod Crates
pub mod FalconInterop
pub mod Intent
pub mod Machine
pub mod Keys
pub mod Sign
pub mod Onchain
pub mod Rpc
pub mod Submit
