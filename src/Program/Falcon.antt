-- ===== src/Program/Falcon.antt =====
-- program/src/auth/falcon.rs: verification through solana-falcon512.
use solana_hybrid_pq_account.Base.{Bytes}
use solana_hybrid_pq_account.Core.Error.{
  Result, ok, ◌>>=◌, ◌>>◌, require, ok_or, malformed_falcon, invalid_falcon,
}
use solana_hybrid_pq_account.Program.Runtime.{Runtime}

module _ (rt : Runtime) where
  unfoldable pub verify_falcon_prepared : Bytes → Bytes → Bytes → Result (Unit {0})
  verify_falcon_prepared prepared_pubkey message signature = do
    prepared ← ok_or (rt.prepared_from_slice prepared_pubkey) malformed_falcon
    s ← ok_or (rt.signature_from_slice signature) malformed_falcon
    require (rt.verify_with_prepared s message prepared) invalid_falcon
    ok tt

  unfoldable pub verify_falcon_raw : Bytes → Bytes → Bytes → Result (Unit {0})
  verify_falcon_raw pubkey_wire message signature = do
    pubkey ← ok_or (rt.pubkey_from_slice pubkey_wire) malformed_falcon
    s ← ok_or (rt.signature_from_slice signature) malformed_falcon
    require (rt.verify s message pubkey) invalid_falcon
    ok tt
