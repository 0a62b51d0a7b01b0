-- ===== src/Client/Keys/Generated.antt =====
-- The machine that a key generation leaves, and what is loaded from it.
pub mod Completed
pub mod Loaded
use Prim.Native.String.{String}
use mathlib.Core.Path.{subst}
use solana_hybrid_pq_account.Base.{ℕ, ◌+◌, ◌≡◌, sym, ap, ◌∙◌, Option, none, some, Bytes, arith}
use text.Mathlib.Text.{◌==◌ as str_eq}
use solana_hybrid_pq_account.Program.Runtime.{Runtime}
use solana_hybrid_pq_account.Client.Crates.{Crates}
use solana_hybrid_pq_account.Client.Error.{Result, ok, err, io}
use solana_hybrid_pq_account.Client.FalconInterop.{prepare_pubkey}
use solana_hybrid_pq_account.Client.Keys.{
  Ed25519Keypair, FalconKeypair, KeySet, public_bytes, id_json_bytes, build,
}
use solana_hybrid_pq_account.Client.Machine.{
  FilePath, File, Machine, Os, ◌>>=◌, ◌>>◌, continue, os_call, put, lift, set_dir_mode,
}
use solana_hybrid_pq_account.Client.Machine.Success.{>>=-eq-ok, os_call-eq-ok, lift-eq-ok}
use solana_hybrid_pq_account.Client.Keys.Files.{
  Json, write_with_mode, write_ed25519, write_falcon, write_keyset, key_path, secret_mode,
  public_mode, ed25519_sk_file, ed25519_pk_file, ed25519_id_file, falcon_sk_file, falcon_pk_file,
  falcon_prepared_file, keyset_file, directory_mode, generate, generate_ed25519, generate_falcon,
  KeygenReport,
}
use solana_hybrid_pq_account.Client.Keys.Files.Modes.{write_with_mode_lem}

abbrev secret : Bytes → File
secret bytes = record { content = bytes; mode = secret_mode }

abbrev public : Bytes → File
public bytes = record { content = bytes; mode = public_mode }

module _ (os : Os) (js : Json) (c : Crates) where
  abbrev pub with_ed25519 : Ed25519Keypair → String → Machine → Machine
  with_ed25519 ed dir m =
      put (key_path dir ed25519_id_file) (secret (js.bytes_to_vec (id_json_bytes c ed))) (
        put (key_path dir ed25519_pk_file) (public (public_bytes c ed))
          (put (key_path dir ed25519_sk_file) (secret ed.signing) m))

  pub write_ed25519_lem :
      (ed : Ed25519Keypair) (dir : String) (m : Machine) {m' : Machine}
      → write_ed25519 os js c ed dir m ≡ (ok tt, m')
      → m' ≡ with_ed25519 ed dir m
  unfolding write_ed25519
  write_ed25519_lem ed dir m succeeded =
      let (_, m₁, first, s₁) =
        >>=-eq-ok (write_with_mode os (key_path dir ed25519_sk_file) ed.signing secret_mode) _
          succeeded in
      let (_, m₂, second, s₂) =
        >>=-eq-ok
          (write_with_mode os (key_path dir ed25519_pk_file) (public_bytes c ed) public_mode) _
          s₁ in
      let w₁ = write_with_mode_lem os _ _ _ _ first in
      let w₂ = write_with_mode_lem os _ _ _ _ second in
      let w₃ = write_with_mode_lem os _ _ _ _ s₂ in cc

  pub write_keyset_lem :
      (keyset : KeySet) (dir : String) (m : Machine) {m' : Machine}
      → write_keyset os js c keyset dir m ≡ (ok tt, m')
      → m' ≡ put (key_path dir keyset_file) (public (js.keyset_to_vec keyset)) m
  unfolding write_keyset
  write_keyset_lem keyset dir m succeeded = write_with_mode_lem os _ _ _ _ succeeded

module _ (os : Os) (rt : Runtime) where
  abbrev pub with_falcon : FalconKeypair → Bytes → String → Machine → Machine
  with_falcon falcon prepared dir m = put (key_path dir falcon_prepared_file) (public prepared) (
      put (key_path dir falcon_pk_file) (public falcon.public)
        (put (key_path dir falcon_sk_file) (secret falcon.secret) m))

  pub write_falcon_lem :
      (falcon : FalconKeypair) (dir : String) (m : Machine) {m' : Machine}
      → write_falcon os rt falcon dir m ≡ (ok tt, m')
      → (prepared : Bytes) × (prepare_pubkey rt falcon.public ≡ ok prepared)
        × (m' ≡ with_falcon falcon prepared dir m)
  unfolding write_falcon
  write_falcon_lem falcon dir m succeeded =
      let (_, m₁, first, s₁) =
        >>=-eq-ok (write_with_mode os (key_path dir falcon_sk_file) falcon.secret secret_mode) _
          succeeded in
      let (_, m₂, second, s₂) =
        >>=-eq-ok (write_with_mode os (key_path dir falcon_pk_file) falcon.public public_mode) _
          s₁ in
      let (prepared, m₃, third, s₃) = >>=-eq-ok (lift (prepare_pubkey rt falcon.public)) _ s₂ in
      let w₁ = write_with_mode_lem os _ _ _ _ first in
      let w₂ = write_with_mode_lem os _ _ _ _ second in
      let (p, same) = lift-eq-ok (prepare_pubkey rt falcon.public) third in
      let w₃ = write_with_mode_lem os _ _ _ _ s₃ in (prepared, p, cc)

module _ (os : Os) where
  -- The key pairs of the next two draws.
  abbrev pub drawn_ed25519 : Machine → Ed25519Keypair
  drawn_ed25519 m = record { signing = os.random_seed m.draws }

  abbrev pub drawn_falcon : Machine → FalconKeypair
  drawn_falcon m =
      let pair = os.falcon_keypair (m.draws + 1) in record { public = pair.0; secret = pair.1 }

module _ (os : Os) (js : Json) (c : Crates) (rt : Runtime) where
  abbrev after_draws : String → Bytes → Machine → Machine
  after_draws dir prepared m =
      let ed = drawn_ed25519 os m in
      let falcon = drawn_falcon os m in
      put (key_path dir keyset_file) (public (js.keyset_to_vec (build rt c ed falcon))) (
        with_falcon os rt falcon prepared dir
          (with_ed25519 os js c ed dir (record m { draws = m.draws + 1 + 1 })))

  abbrev pub after_generate : String → Bytes → Machine → Machine
  after_generate dir prepared m = after_draws dir prepared (set_dir_mode dir directory_mode m)

  pub generate_lem :
      (dir : String) (m : Machine) {report : KeygenReport} {m' : Machine}
      → generate os js c rt dir m ≡ (ok report, m')
      → (prepared : Bytes) × (prepare_pubkey rt (drawn_falcon os m).public ≡ ok prepared)
        × (m' ≡ after_generate dir prepared m)
  unfolding generate generate_ed25519 generate_falcon
  generate_lem dir m succeeded =
      let (_, m₁, first, s₁) =
        >>=-eq-ok (os_call dir (os.create_dir_error dir) (λ m. m) (λ m. m)) _ succeeded in
      let (_, m₂, second, s₂) =
        >>=-eq-ok (os_call dir (os.dir_mode_error dir) (set_dir_mode dir directory_mode) (λ m. m)) _
          s₁ in
      let (_, m₃, third, s₃) = >>=-eq-ok (write_ed25519 os js c (drawn_ed25519 os m₂) dir) _ s₂ in
      let (_, m₄, fourth, s₄) = >>=-eq-ok (write_falcon os rt (drawn_falcon os m₂) dir) _ s₃ in
      let (_, m₅, fifth, s₅) = >>=-eq-ok (write_keyset os js c _ dir) _ s₄ in
      let d₁ = os_call-eq-ok _ (os.create_dir_error dir) _ _ first in
      let d₂ = os_call-eq-ok _ (os.dir_mode_error dir) _ _ second in
      let w₃ = write_ed25519_lem os js c _ dir _ third in
      let (prepared, p, w₄) = write_falcon_lem os rt _ dir _ fourth in
      let w₅ = write_keyset_lem os js c _ dir _ fifth in
      let reached = sym d₂ ∙ ap (set_dir_mode dir directory_mode) (sym d₁) in
      (
        prepared,
        subst (λ (k : Machine). prepare_pubkey rt (drawn_falcon os k).public ≡ ok prepared) reached
            p,
        sym (ap (λ s. s.1) s₅)
            ∙ w₅
            ∙ ap (put _ _) (w₄ ∙ ap (with_falcon os rt _ prepared dir) w₃)
            ∙ ap (λ (k : Machine). after_draws dir prepared k) reached,
      )
