-- ===== src/Client/Keys.antt =====
-- client/src/keys.rs: the key pairs in memory, and the public manifest. Their files are in `Files`.
pub mod Files
pub mod Generated
use Prim.Native.String.{String}
use solana_hybrid_pq_account.Base.{ℕ, ◌==◌, ◌++◌, Bytes, length}
use solana_hybrid_pq_account.Program.Runtime.{Runtime}
use solana_hybrid_pq_account.Client.Crates.{Crates}
use solana_hybrid_pq_account.Client.Error.{Result, ok, ◌>>◌, require, ed25519_key}

-- `SigningKey` is its seed.
pub record Ed25519Keypair : Type 0 where
  pub signing : Bytes

pub record FalconKeypair : Type 0 where
  pub public : Bytes
  pub secret : Bytes

unfoldable pub from_seed : Bytes → Result Ed25519Keypair
from_seed seed = do
  require (length seed == 32) (ed25519_key "seed must be 32 bytes")
  ok (record { signing = seed })

pub record KeySet : Type 0 where
  pub format : String
  pub ed25519_public_key : String
  pub falcon512_public_key : String
  pub falcon512_public_key_sha256 : String
  pub falcon512_prepared_public_key_len : ℕ
  pub notes : String

module _ (c : Crates) where
  unfoldable pub public_bytes : Ed25519Keypair → Bytes
  public_bytes ed = c.ed25519_public ed.signing

  unfoldable pub id_json_bytes : Ed25519Keypair → Bytes
  unfolding public_bytes
  id_json_bytes ed = ed.signing ++ public_bytes ed

module _ (rt : Runtime) (c : Crates) where
  -- `KeySet::build`
  unfoldable pub build : Ed25519Keypair → FalconKeypair → KeySet
  unfolding public_bytes
  build ed falcon = record {
    format = "dualkey-keyset-v1";
    ed25519_public_key = c.hex_encode (public_bytes c ed);
    falcon512_public_key = c.hex_encode falcon.public;
    falcon512_public_key_sha256 = c.hex_encode (rt.sha256 falcon.public);
    falcon512_prepared_public_key_len = 1024;
    notes = "Public material only. Secret keys live in 0600 files and never on-chain.";
  }
