-- ===== src/Client/Keys/Generated/Completed.antt =====
-- A key generation runs to its end where the operating system refuses nothing.
use Prim.Native.String.{String}
use solana_hybrid_pq_account.Base.{◌≡◌, refl, [], ◌∷◌, Bytes}
use solana_hybrid_pq_account.Program.Runtime.{Runtime}
use solana_hybrid_pq_account.Client.Crates.{Crates}
use solana_hybrid_pq_account.Client.Error.{ok}
use solana_hybrid_pq_account.Client.FalconInterop.{prepare_pubkey}
use solana_hybrid_pq_account.Client.Keys.{Ed25519Keypair, FalconKeypair, public_bytes, build}
use solana_hybrid_pq_account.Client.Machine.{Machine, Os}
use solana_hybrid_pq_account.Client.Keys.Files.{
  Json, write_ed25519, write_falcon, write_keyset, generate, generate_ed25519, generate_falcon,
  KeygenReport, secret_files, ed25519_pk_file, falcon_pk_file, falcon_prepared_file, keyset_file,
}
use solana_hybrid_pq_account.Client.Keys.Files.Modes.{IsWilling, write_with_mode-willing}
use solana_hybrid_pq_account.Client.Keys.Generated.{
  with_ed25519, with_falcon, after_generate, drawn_ed25519, drawn_falcon,
}

module _ (os : Os) (js : Json) (c : Crates) (rt : Runtime) where
  abbrev pub reported : String → Machine → KeygenReport
  reported dir m = record {
    dir = dir;
    ed25519_public_key = c.hex_encode (public_bytes c (drawn_ed25519 os m));
    falcon_public_key_sha256 = c.hex_encode (rt.sha256 (drawn_falcon os m).public);
    falcon_public_key_len = 897;
    falcon_secret_key_len = 1281;
    prepared_public_key_len = 1024;
    secret_files = secret_files;
    public_files = ed25519_pk_file ∷ falcon_pk_file ∷ falcon_prepared_file ∷ keyset_file ∷ [];
  }

module _ (os : Os) (js : Json) (c : Crates) (rt : Runtime) (w : IsWilling os) where
  write_ed25519-willing :
      (ed : Ed25519Keypair) (dir : String) (m : Machine)
      → write_ed25519 os js c ed dir m ≡ (ok tt, with_ed25519 os js c ed dir m)
  unfolding write_ed25519
  write_ed25519-willing ed dir m = simp (write_with_mode-willing os w) refl

  write_falcon-willing :
      (falcon : FalconKeypair) (dir : String) (m : Machine) (prepared : Bytes)
      → prepare_pubkey rt falcon.public ≡ ok prepared
      → write_falcon os rt falcon dir m ≡ (ok tt, with_falcon os rt falcon prepared dir m)
  unfolding write_falcon
  write_falcon-willing falcon dir m prepared prepares =
      simp (write_with_mode-willing os w, prepares) refl

  -- Where the operating system refuses no call that writes and the Falcon public key drawn can be
  -- prepared, a key generation succeeds: it reports the two keys drawn, and leaves their seven files,
  -- two draws later.
  pub generate-completes :
      (dir : String) (m : Machine) (prepared : Bytes)
      → prepare_pubkey rt (drawn_falcon os m).public ≡ ok prepared
      → generate os js c rt dir m
        ≡ (ok (reported os js c rt dir m), after_generate os js c rt dir prepared m)
  unfolding generate generate_ed25519 generate_falcon write_keyset build
  generate-completes dir m prepared prepares =
      rw
        (
          w.creates dir,
          w.sets_dir_mode dir,
          write_ed25519-willing _ dir _,
          write_falcon-willing (drawn_falcon os m) dir _ prepared prepares,
          write_with_mode-willing os w,
        )
        refl
