-- ===== src/Client/Keys/Files.antt =====
-- client/src/keys.rs and keygen.rs: the key files, their modes, and the generation of a key set.
pub mod Modes
use Prim.Native.String.{String}
use solana_hybrid_pq_account.Base.{
  ℕ, ◌+◌, Bool, true, false, Option, none, some, List, [], ◌∷◌, Bytes, length, ◌==◌, if◌then◌else◌,
}
use solana_hybrid_pq_account.Program.Runtime.{Runtime}
use solana_hybrid_pq_account.Client.Crates.{Crates}
use solana_hybrid_pq_account.Client.Error.{
  ClientError, Result, ok, err, io, key_file_length, falcon_key, json, ok_or,
}
use solana_hybrid_pq_account.Client.FalconInterop.{prepare_pubkey}
use solana_hybrid_pq_account.Client.Keys.{
  Ed25519Keypair, FalconKeypair, KeySet, from_seed, public_bytes, id_json_bytes, build,
}
use solana_hybrid_pq_account.Client.Machine.{
  FilePath, Machine, Os, M, ◌>>=◌, ◌>>◌, pure, lift, os_call, change, opened, with_content,
  with_mode, set_dir_mode,
}

-- 0o600, 0o644 and 0o700
abbrev pub secret_mode : ℕ
secret_mode = 384

abbrev pub public_mode : ℕ
public_mode = 420

abbrev pub directory_mode : ℕ
directory_mode = 448

abbrev pub ed25519_sk_file : String
ed25519_sk_file = "ed25519.sk"

abbrev pub ed25519_pk_file : String
ed25519_pk_file = "ed25519.pk"

abbrev pub ed25519_id_file : String
ed25519_id_file = "ed25519-id.json"

abbrev pub falcon_sk_file : String
falcon_sk_file = "falcon512.sk"

abbrev pub falcon_pk_file : String
falcon_pk_file = "falcon512.pk"

abbrev pub falcon_prepared_file : String
falcon_prepared_file = "falcon512.prepared"

abbrev pub keyset_file : String
keyset_file = "keyset.json"

abbrev pub secret_files : List String
secret_files = ed25519_sk_file ∷ ed25519_id_file ∷ falcon_sk_file ∷ []

-- `KeyPaths`: the directory, and the path of a name in it.
abbrev pub key_path : String → String → FilePath
key_path dir name = record { dir = dir; name = name }

-- serde_json, on the two values that are written, and on a manifest that is read.
pub record Json : Type 0 where
  pub bytes_to_vec : Bytes → Bytes
  pub keyset_to_vec : KeySet → Bytes
  pub keyset_from_slice : Bytes → Option KeySet
  pub syntax : String

module _ (os : Os) where
  unfoldable pub write_with_mode : FilePath → Bytes → ℕ → M (Unit {0})
  write_with_mode path bytes mode = do
    let shown = os.display path
    os_call shown (os.open_error path) (change path (opened (os.masked mode))) (λ m. m)
    os_call shown (os.write_error path) (change path (with_content bytes))
        (change path (with_content (os.written path bytes)))
    os_call shown (os.sync_error path) (λ m. m) (λ m. m)
    os_call shown (os.mode_error path) (change path (with_mode mode)) (λ m. m)

  -- `fs::read(path)`
  unfoldable pub read : FilePath → M Bytes
  read path m = elim (os.read_error path) [
    | some text ↦ (err (io (os.display path) text), m)
    | none ↦ elim (m.files path) [
      | none ↦ (err (io (os.display path) os.not_found), m)
      | some f ↦ (ok f.content, m)
    ]
  ]

  unfoldable pub read_exact_len : FilePath → ℕ → M Bytes
  read_exact_len path expected = do
    bytes ← read path
    lift (
        if length bytes == expected
        then ok bytes
        else err (key_file_length (os.display path) expected (length bytes)))

  -- `Ed25519Keypair::generate` and `FalconKeypair::generate`
  unfoldable pub generate_ed25519 : M Ed25519Keypair
  generate_ed25519 m =
      (ok (record { signing = os.random_seed m.draws }), record m { draws = m.draws + 1 })

  unfoldable pub generate_falcon : M FalconKeypair
  generate_falcon m =
      let pair = os.falcon_keypair m.draws in
      (ok (record { public = pair.0; secret = pair.1 }), record m { draws = m.draws + 1 })

  -- `Ed25519Keypair::load`
  unfoldable pub load_ed25519 : String → M Ed25519Keypair
  load_ed25519 dir = do
    seed ← read_exact_len (key_path dir ed25519_sk_file) 32
    lift (from_seed seed)

module _ (os : Os) (js : Json) (c : Crates) where
  -- `Ed25519Keypair::write`
  unfoldable pub write_ed25519 : Ed25519Keypair → String → M (Unit {0})
  write_ed25519 ed dir = do
    write_with_mode os (key_path dir ed25519_sk_file) ed.signing secret_mode
    write_with_mode os (key_path dir ed25519_pk_file) (public_bytes c ed) public_mode
    write_with_mode os (key_path dir ed25519_id_file) (js.bytes_to_vec (id_json_bytes c ed))
        secret_mode

  -- `FalconKeypair::load`
  unfoldable pub load_falcon : String → M FalconKeypair
  load_falcon dir = do
    sk_bytes ← read_exact_len os (key_path dir falcon_sk_file) 1281
    pk_bytes ← read_exact_len os (key_path dir falcon_pk_file) 897
    secret ←
        lift
          (ok_or (c.pq_secret_key sk_bytes) (falcon_key "PQClean rejected the secret key encoding"))
    public ←
        lift
          (ok_or (c.pq_public_key pk_bytes) (falcon_key "PQClean rejected the public key encoding"))
    pure (record { public = public; secret = secret })

  -- `KeySet::write` and `KeySet::load`
  unfoldable pub write_keyset : KeySet → String → M (Unit {0})
  write_keyset keyset dir =
      write_with_mode os (key_path dir keyset_file) (js.keyset_to_vec keyset) public_mode

  unfoldable pub load_keyset : String → M KeySet
  load_keyset dir = do
    bytes ← read os (key_path dir keyset_file)
    lift (ok_or (js.keyset_from_slice bytes) (json js.syntax))

-- `FalconKeypair::write`
unfoldable pub write_falcon : Os → Runtime → FalconKeypair → String → M (Unit {0})
write_falcon os rt falcon dir = do
  write_with_mode os (key_path dir falcon_sk_file) falcon.secret secret_mode
  write_with_mode os (key_path dir falcon_pk_file) falcon.public public_mode
  prepared ← lift (prepare_pubkey rt falcon.public)
  write_with_mode os (key_path dir falcon_prepared_file) prepared public_mode

pub record PublicKeys : Type 0 where
  pub ed25519 : Bytes
  pub falcon_wire : Bytes

-- `PublicKeys::load`
unfoldable pub load_public : Os → String → M PublicKeys
load_public os dir = do
  ed ← read_exact_len os (key_path dir ed25519_pk_file) 32
  falcon_wire ← read_exact_len os (key_path dir falcon_pk_file) 897
  pure (record { ed25519 = ed; falcon_wire = falcon_wire })

-- `PublicKeys::falcon_public_key_hash`
unfoldable pub falcon_public_key_hash : Runtime → PublicKeys → Bytes
falcon_public_key_hash rt keys = rt.sha256 keys.falcon_wire

pub record KeygenReport : Type 0 where
  pub dir : String
  pub ed25519_public_key : String
  pub falcon_public_key_sha256 : String
  pub falcon_public_key_len : ℕ
  pub falcon_secret_key_len : ℕ
  pub prepared_public_key_len : ℕ
  pub secret_files : List String
  pub public_files : List String

-- `keygen::generate`
unfoldable pub generate : Os → Json → Crates → Runtime → String → M KeygenReport
generate os js c rt out_dir = do
  os_call out_dir (os.create_dir_error out_dir) (λ m. m) (λ m. m)
  os_call out_dir (os.dir_mode_error out_dir) (set_dir_mode out_dir directory_mode) (λ m. m)
  ed ← generate_ed25519 os
  falcon ← generate_falcon os
  write_ed25519 os js c ed out_dir
  write_falcon os rt falcon out_dir
  let keyset = build rt c ed falcon
  write_keyset os js c keyset out_dir
  pure (record {
    dir = out_dir;
    ed25519_public_key = c.hex_encode (public_bytes c ed);
    falcon_public_key_sha256 = keyset.falcon512_public_key_sha256;
    falcon_public_key_len = 897;
    falcon_secret_key_len = 1281;
    prepared_public_key_len = 1024;
    secret_files = secret_files;
    public_files = ed25519_pk_file ∷ falcon_pk_file ∷ falcon_prepared_file ∷ keyset_file ∷ [];
  })
