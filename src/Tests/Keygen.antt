-- ===== src/Tests/Keygen.antt =====
-- A key directory on a machine that refuses nothing, and one that refuses to change a mode.
use solana_hybrid_pq_account.Base.{
  ◌+◌, ◌≡◌, refl, none, some, [], ◌∷◌, ◌++◌, ◌==◌, Bytes, length, replicate, if◌then◌else◌,
}
use solana_hybrid_pq_account.Base.Buffer.{slice}
use solana_hybrid_pq_account.Client.Crates.{Decoded, decoded, malformed}
use solana_hybrid_pq_account.Client.Error.{ok, err, io}
use solana_hybrid_pq_account.Client.FalconInterop.{prepare_pubkey}
use solana_hybrid_pq_account.Client.Keys.{public_bytes, build}
use solana_hybrid_pq_account.Client.Machine.{Machine, Os}
use solana_hybrid_pq_account.Client.Keys.Files.{
  Json, key_path, ed25519_sk_file, secret_mode, write_with_mode, generate, load_ed25519,
  load_falcon, load_public, load_keyset,
}
use solana_hybrid_pq_account.Client.Keys.Files.Modes.{IsWilling, write_with_mode-exposed}
use solana_hybrid_pq_account.Client.Keys.Generated.{after_generate, drawn_ed25519, drawn_falcon}
use solana_hybrid_pq_account.Client.Keys.Generated.Loaded.{
  Generated, generate-Generated, Readable, manifest, public_keys, generate-loads,
}
use solana_hybrid_pq_account.Client.Keys.Generated.Completed.{reported, generate-completes}
use solana_hybrid_pq_account.Tests.Crates.{crates, hex_encode, hex_decode, local_runtime}

abbrev pub os : Os
os = record {
  open_error = λ p. none;
  write_error = λ p. none;
  written = λ p b. [];
  sync_error = λ p. none;
  mode_error = λ p. none;
  read_error = λ p. none;
  create_dir_error = λ d. none;
  dir_mode_error = λ d. none;
  not_found = "No such file or directory";
  masked = λ mode. mode;
  display = λ p. p.name;
  random_seed = λ n. replicate 32 n;
  falcon_keypair = λ n. (replicate 897 n, replicate 1281 (n + 1));
}

abbrev bytes_of : Decoded → Bytes
bytes_of (decoded b) = b
bytes_of (malformed e) = []

-- The three keys of a manifest, one behind the other.
abbrev pub js : Json
js = record {
  bytes_to_vec = λ b. b;
  keyset_to_vec = λ k.
      bytes_of (hex_decode k.ed25519_public_key)
      ++ bytes_of (hex_decode k.falcon512_public_key_sha256)
      ++ bytes_of (hex_decode k.falcon512_public_key);
  keyset_from_slice = λ b.
      if length b == 961
      then some (record {
        format = "dualkey-keyset-v1";
        ed25519_public_key = hex_encode (slice 0 32 b);
        falcon512_public_key = hex_encode (slice 64 897 b);
        falcon512_public_key_sha256 = hex_encode (slice 32 32 b);
        falcon512_prepared_public_key_len = 1024;
        notes = "Public material only. Secret keys live in 0600 files and never on-chain.";
      })
      else none;
  syntax = "syntax";
}

abbrev empty : Machine
empty = record { files = λ p. none; dir_modes = λ d. none; draws = 0; posted = [] }

abbrev prepared : Bytes
prepared = replicate 1024 6

os-IsWilling : IsWilling os
os-IsWilling = record {
  opens = λ p. refl;
  writes = λ p. refl;
  syncs = λ p. refl;
  sets_mode = λ p. refl;
  creates = λ d. refl;
  sets_dir_mode = λ d. refl;
}

empty-Readable : Readable os js crates local_runtime empty
unfolding slice public_bytes build
empty-Readable = record {
  readable = λ p. refl;
  seed_size = refl;
  owner_size = refl;
  secret_size = refl;
  public_size = refl;
  secret_accepted = refl;
  public_accepted = refl;
  manifest_read = refl;
}

prepares : prepare_pubkey local_runtime (drawn_falcon os empty).public ≡ ok prepared
unfolding prepare_pubkey
prepares = refl

abbrev pub after : Machine
after = after_generate os js crates local_runtime "keys" prepared empty

generated :
    generate os js crates local_runtime "keys" empty
    ≡ (ok (reported os js crates local_runtime "keys" empty), after)
generated =
    generate-completes os js crates local_runtime os-IsWilling "keys" empty prepared prepares

generate-completes_example :
    generate os js crates local_runtime "keys" empty
    ≡ (ok (reported os js crates local_runtime "keys" empty), after)
generate-completes_example =
    generate-completes os js crates local_runtime os-IsWilling "keys" empty prepared prepares

generate-Generated_example : Generated os js crates local_runtime "keys" empty after
generate-Generated_example = generate-Generated os js crates local_runtime "keys" empty generated

generate-loads_example :
    (load_ed25519 os "keys" after ≡ (ok (drawn_ed25519 os empty), after))
    × (load_falcon os js crates "keys" after ≡ (ok (drawn_falcon os empty), after))
    × (load_public os "keys" after ≡ (ok (public_keys os js crates local_runtime empty), after))
    × (load_keyset os js crates "keys" after
        ≡ (ok (manifest os js crates local_runtime empty), after))
generate-loads_example =
    generate-loads os js crates local_runtime "keys" empty empty-Readable generated

-- The file is there with the mode 0644, and its owner is another user.
abbrev shared : Machine
shared = record empty { files = λ p. some (record { content = []; mode = 420 }) }

abbrev strict : Os
strict = record os { mode_error = λ p. some "Operation not permitted" }

write_with_mode-exposed_example :
    let outcome =
      write_with_mode strict (key_path "keys" ed25519_sk_file) (1 ∷ 2 ∷ []) secret_mode shared in
    (outcome.0 ≡ err (io "ed25519.sk" "Operation not permitted"))
    × (outcome.1.files (key_path "keys" ed25519_sk_file)
        ≡ some (record { content = 1 ∷ 2 ∷ []; mode = 420 }))
write_with_mode-exposed_example =
    write_with_mode-exposed strict (key_path "keys" ed25519_sk_file) (1 ∷ 2 ∷ []) secret_mode shared
      (record { content = []; mode = 420 }) refl refl refl refl refl
