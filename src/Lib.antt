-- ===== src/Lib.antt =====
-- The verification library of solana-hybrid-pq-account ("DualKey"): an on-chain program whose
-- accounts are authorized by an Ed25519 key, a Falcon-512 key, or both, and the crate `core` of
-- layouts and encodings that the program shares with its client.
--
-- Parts. `Base` has the shared lists of bytes, ranges of buffers, little-endian words and tests.
-- `Core` models core/src, one module per file: `Core.Error` error.rs (`Result` is Rust's, `>>=` is
-- `?`), `Core.RecoveryOp` and `Core.Intent` intent.rs, `Core.Policy` policy.rs, `Core.Canonical`
-- canonical.rs, `Core.Wire` wire.rs, `Core.Account` state.rs, `Core.Recovery` recovery.rs.
-- `Program` models program/src: `Program.Ed25519`, `Program.Falcon` and `Program.Evaluate` the
-- directory auth, `Program.Reconstruct` reconstruct.rs and hash.rs, and the others the file of
-- their name (`Program.Execute` execute.rs, `Program.SocialRecovery` social_recovery.rs, ...).
-- `Client` models client/src: `Client.Error` error.rs, `Client.Intent` intent.rs,
-- `Client.FalconInterop` falcon_interop.rs, `Client.Keys` keys.rs, `Client.Keys.Files` its files
-- and keygen.rs, over the machine of `Client.Machine`, `Client.Sign` sign.rs, `Client.Onchain`
-- onchain.rs, `Client.Rpc` rpc.rs and `Client.Submit` submit.rs. The child modules hold what is
-- proved. `Tests` runs whole instructions on a small ledger.
--
-- How they interact. `Program.Processor.process` reads the discriminator and calls a handler. Each
-- authorized handler cuts the payload into the 49-byte fragment of `Core.Wire` and a Falcon
-- signature, and calls `Program.Authorize.authorize`, which reconstructs the intent from the
-- fragment and the account's own key and nonce, hashes its 172-byte preimage (`Core.Canonical`),
-- derives the signature requirement from the policy (`Core.Policy`), checks the signatures that it
-- asks for, and gives the next nonce. The handler then writes the account through the setters of
-- `Core.Account`, and the recovery config through those of `Core.Recovery`.
-- `Program.SocialRecovery.Trace` is the step relation of the instructions that touch a recovery
-- config, over any sequence of slots. The client signs the same preimage with both keys
-- (`Client.Sign`) and builds the instructions (`Client.Onchain`), which `Client.Onchain.Dispatch`
-- and `Client.Onchain.Delivered` follow into the program's handlers.
--
-- State. The accounts are one total map from keys to states (`World`), so that two account infos
-- with one key are one account, as in the runtime. A handler is a function from the map to a new
-- map or an error; on an error the runtime keeps the old map. Account data are lists of bytes, and
-- `HybridAccount` and `RecoveryConfig`, which are views of a buffer, are that buffer: a method
-- that takes `&mut self` returns the new one. `msg!` is left out. `try_borrow_*` does not fail,
-- since each handler drops a borrow before the next. A range behind the end of a buffer panics in
-- the source; here it is cut, and every caller has tested the length before.
--
-- Parameters. Third-party code is the record `Program.Runtime.Runtime`: sha256, address
-- derivation, solana-falcon512, the sysvars, the load of the instruction before, the invocation of
-- the System and token programs, the program ids; so is the cluster's constant, which a Cargo
-- feature chooses. What a theorem needs of them (hashes have 32 bytes, prepared keys 1024) is a
-- hypothesis of it. The client uses sha256, the address derivation and solana-falcon512 of that
-- record, and the record `Client.Crates.Crates`: hex, ed25519-dalek, PQClean's Falcon, whose
-- signer takes the number of its calls so far since it is randomized, and the builder of the
-- Ed25519 instruction. What writes files works on `Client.Machine.Machine`, the files with their
-- contents and modes, under the parameter `Os`: which calls the operating system refuses, the mode
-- that it gives a new file, and the random generators by the number of the draw; an error keeps
-- what was done before it. The machine also has the transactions that a node was given, under the
-- parameters `Client.Rpc.Sdk` (the solana crates) and `Client.Rpc.Node` (what a node answers);
-- `Client.Submit.Env` has all of them. serde_json is `Json` and `to_vec_pretty`.
--
-- Fuel. Signing again where a signature is too long takes the number of attempts, and a
-- transaction is polled 60 times, as in the source. Otherwise only the loop over token extensions
-- has fuel, a number of turns, and has no result where they do not suffice: the length of the data
-- is enough, since each turn but the last moves by four bytes at least
-- (`Program.SplToken.Walk.walk_tlv-terminates`).
--
-- Not modelled: the client's command line (client/src/main.rs) and HTTP calls, what it prints, its
-- writes on other systems than Unix, and compute costs. `canonical_digest` and
-- `social_recover_digest` are sha256 of the modelled preimages. Numbers are unbounded where the
-- source's cannot overflow, and checked where it checks.
pub mod Base
pub mod Core
pub mod Program
pub mod Client
pub mod Tests
