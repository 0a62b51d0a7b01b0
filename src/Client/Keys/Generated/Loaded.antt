-- ===== src/Client/Keys/Generated/Loaded.antt =====
-- The key directory after a generation: the mode of every file, and what the loaders read back.
use Prim.Native.String.{String}
use text.Mathlib.TextPositions.{eq_refl}
use text.Mathlib.Text.{◌==◌ as str_eq}
use mathlib.Core.Path.{subst}
use solana_hybrid_pq_account.Base.{
  ◌==◌, ℕ, Bool, ◌&&◌, ◌≡◌, refl, sym, none, some, false, true, Bytes, length,
}
use solana_hybrid_pq_account.Program.Runtime.{Runtime}
use solana_hybrid_pq_account.Client.Crates.{Crates}
use solana_hybrid_pq_account.Client.Error.{ok}
use solana_hybrid_pq_account.Client.FalconInterop.{prepare_pubkey}
use solana_hybrid_pq_account.Client.Keys.{KeySet, public_bytes, id_json_bytes, build, from_seed}
use solana_hybrid_pq_account.Client.Machine.{FilePath, File, Machine, Os}
use solana_hybrid_pq_account.Client.Keys.Files.{
  Json, read, read_exact_len, load_ed25519, load_falcon, load_public, load_keyset, PublicKeys,
  key_path, ed25519_sk_file, ed25519_pk_file, ed25519_id_file, falcon_sk_file, falcon_pk_file,
  falcon_prepared_file, keyset_file, directory_mode, generate, KeygenReport,
}
use solana_hybrid_pq_account.Client.Keys.Generated.{
  after_generate, generate_lem, drawn_ed25519, drawn_falcon, secret, public,
}

and_false : (b : Bool) → (b && false) ≡ false
and_false false = refl
and_false true = refl

module _ (os : Os) (js : Json) (c : Crates) (rt : Runtime) where
  -- The files of a key directory, by what is in them and who may read them.
  pub record Generated (dir : String) (m m' : Machine) : Type 0 where
    pub prepared : Bytes
    pub prepares : prepare_pubkey rt (drawn_falcon os m).public ≡ ok prepared
    pub directory : m'.dir_modes dir ≡ some directory_mode
    pub ed25519_sk :
        m'.files (key_path dir ed25519_sk_file) ≡ some (secret (drawn_ed25519 os m).signing)
    pub ed25519_id :
        m'.files (key_path dir ed25519_id_file)
        ≡ some (secret (js.bytes_to_vec (id_json_bytes c (drawn_ed25519 os m))))
    pub falcon_sk :
        m'.files (key_path dir falcon_sk_file) ≡ some (secret (drawn_falcon os m).secret)
    pub ed25519_pk :
        m'.files (key_path dir ed25519_pk_file)
        ≡ some (public (public_bytes c (drawn_ed25519 os m)))
    pub falcon_pk :
        m'.files (key_path dir falcon_pk_file) ≡ some (public (drawn_falcon os m).public)
    pub falcon_prepared : m'.files (key_path dir falcon_prepared_file) ≡ some (public prepared)
    pub keyset :
        m'.files (key_path dir keyset_file)
        ≡ some (public (js.keyset_to_vec (build rt c (drawn_ed25519 os m) (drawn_falcon os m))))
    pub other_directories : (q : FilePath) → str_eq q.dir dir ≡ false → m'.files q ≡ m.files q

  after_generate-Generated :
      (dir : String) (m : Machine) (prepared : Bytes)
      → prepare_pubkey rt (drawn_falcon os m).public ≡ ok prepared
      → Generated dir m (after_generate os js c rt dir prepared m)
  after_generate-Generated dir m prepared prepares = record {
    prepared = prepared;
    prepares = prepares;
    directory = rw (eq_refl dir) refl;
    ed25519_sk = rw (eq_refl dir) refl;
    ed25519_id = rw (eq_refl dir) refl;
    falcon_sk = rw (eq_refl dir) refl;
    ed25519_pk = rw (eq_refl dir) refl;
    falcon_pk = rw (eq_refl dir) refl;
    falcon_prepared = rw (eq_refl dir) refl;
    keyset = rw (eq_refl dir) refl;
    other_directories = λ q elsewhere. simp (elsewhere, and_false) refl;
  }

  -- Where a key generation succeeds, the key directory has the mode 0700, the two secret keys and the
  -- keypair file of the Solana tools have the mode 0600, the public files have the mode 0644, each
  -- holds what its name says of the two key pairs drawn, the prepared key being that of the Falcon
  -- public key, and no file in another directory has changed.
  pub generate-Generated :
      (dir : String) (m : Machine) {report : KeygenReport} {m' : Machine}
      → generate os js c rt dir m ≡ (ok report, m')
      → Generated dir m m'
  generate-Generated dir m succeeded =
      let (prepared, prepares, reached) = generate_lem os js c rt dir m succeeded in
      subst (λ (k : Machine). Generated dir m k) (sym reached)
        (after_generate-Generated dir m prepared prepares)

module _ (os : Os) where
  read-there :
      (p : FilePath) (m : Machine) (f : File)
      → os.read_error p ≡ none
      → m.files p ≡ some f
      → read os p m ≡ (ok f.content, m)
  unfolding read
  read-there p m f readable there = rw (readable, there, read) refl

  read_exact_len-there :
      (p : FilePath) (n : ℕ) (m : Machine) (f : File)
      → os.read_error p ≡ none
      → m.files p ≡ some f
      → (length f.content == n) ≡ true
      → read_exact_len os p n m ≡ (ok f.content, m)
  unfolding read_exact_len
  read_exact_len-there p n m f readable there sized =
      rw (read-there p m f readable there, sized) refl

module _ (os : Os) (js : Json) (c : Crates) (rt : Runtime) where
  abbrev pub public_keys : Machine → PublicKeys
  public_keys m = record {
    ed25519 = public_bytes c (drawn_ed25519 os m);
    falcon_wire = (drawn_falcon os m).public;
  }

  abbrev pub manifest : Machine → KeySet
  manifest m = build rt c (drawn_ed25519 os m) (drawn_falcon os m)

  -- The files can be read, the keys that are drawn have their sizes and are accepted, and
  -- serde_json reads what it has written.
  pub record Readable (m : Machine) : Type 0 where
    pub readable : (p : FilePath) → os.read_error p ≡ none
    pub seed_size : length (drawn_ed25519 os m).signing ≡ 32
    pub owner_size : length (public_bytes c (drawn_ed25519 os m)) ≡ 32
    pub secret_size : length (drawn_falcon os m).secret ≡ 1281
    pub public_size : length (drawn_falcon os m).public ≡ 897
    pub secret_accepted :
        c.pq_secret_key (drawn_falcon os m).secret ≡ some (drawn_falcon os m).secret
    pub public_accepted :
        c.pq_public_key (drawn_falcon os m).public ≡ some (drawn_falcon os m).public
    pub manifest_read : js.keyset_from_slice (js.keyset_to_vec (manifest m)) ≡ some (manifest m)

  Generated-loads :
      (dir : String) (m m' : Machine)
      → Readable m
      → Generated os js c rt dir m m'
      → (load_ed25519 os dir m' ≡ (ok (drawn_ed25519 os m), m'))
        × (load_falcon os js c dir m' ≡ (ok (drawn_falcon os m), m'))
        × (load_public os dir m' ≡ (ok (public_keys m), m'))
        × (load_keyset os js c dir m' ≡ (ok (manifest m), m'))
  unfolding load_ed25519 load_falcon load_public load_keyset from_seed
  Generated-loads dir m m' r g =
      let seed =
        read_exact_len-there os (key_path dir ed25519_sk_file) 32 m' _ (r.readable _) g.ed25519_sk
          (rw r.seed_size refl) in
      let secret_read =
        read_exact_len-there os (key_path dir falcon_sk_file) 1281 m' _ (r.readable _) g.falcon_sk
          (rw r.secret_size refl) in
      let public_read =
        read_exact_len-there os (key_path dir falcon_pk_file) 897 m' _ (r.readable _) g.falcon_pk
          (rw r.public_size refl) in
      let keyset_read = read-there os (key_path dir keyset_file) m' _ (r.readable _) g.keyset in
      let owner_read =
        read_exact_len-there os (key_path dir ed25519_pk_file) 32 m' _ (r.readable _) g.ed25519_pk
          (rw r.owner_size refl) in
      (
        rw (seed, r.seed_size) refl,
        rw (secret_read, public_read, r.secret_accepted, r.public_accepted) refl,
        rw (owner_read, public_read) refl,
        rw (keyset_read, r.manifest_read) refl,
      )

  -- After a key generation that succeeds, where the files can be read, the drawn keys have their
  -- sizes and are accepted by PQClean, and serde_json reads back the manifest: the loaders give the
  -- Ed25519 and the Falcon key pair drawn, their public keys, and their manifest.
  pub generate-loads :
      (dir : String) (m : Machine) {report : KeygenReport} {m' : Machine}
      → Readable m
      → generate os js c rt dir m ≡ (ok report, m')
      → (load_ed25519 os dir m' ≡ (ok (drawn_ed25519 os m), m'))
        × (load_falcon os js c dir m' ≡ (ok (drawn_falcon os m), m'))
        × (load_public os dir m' ≡ (ok (public_keys m), m'))
        × (load_keyset os js c dir m' ≡ (ok (manifest m), m'))
  generate-loads dir m r succeeded =
      Generated-loads dir m _ r (generate-Generated os js c rt dir m succeeded)
