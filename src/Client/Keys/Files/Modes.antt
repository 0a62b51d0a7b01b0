-- ===== src/Client/Keys/Files/Modes.antt =====
-- What a write of a key file leaves at its path, when it succeeds and when it does not.
use Prim.Native.String.{String}
use solana_hybrid_pq_account.Base.{ℕ, ◌≡◌, refl, ap, ◌∙◌, Option, none, some, Bytes, arith}
use solana_hybrid_pq_account.Client.Error.{ok, err, io}
use solana_hybrid_pq_account.Client.Machine.{
  FilePath, File, Machine, Os, change, put, opened, with_content, with_mode,
}
use solana_hybrid_pq_account.Client.Machine.Success.{change-change, path_eq_refl}
use solana_hybrid_pq_account.Client.Keys.Files.{write_with_mode}

finished :
    (before mode : ℕ) (bytes : Bytes) (o : Option File)
    → with_mode mode (with_content bytes (opened before o))
      ≡ some (record { content = bytes; mode = mode })
finished before mode bytes none = refl
finished before mode bytes (some f) = refl

overwritten :
    (path : FilePath) (bytes : Bytes) (mode before : ℕ) (m : Machine)
    → change path
        (with_mode mode)
        (change path (with_content bytes) (change path (opened before) m))
      ≡ put path (record { content = bytes; mode = mode }) m
overwritten path bytes mode before m =
    change-change path (with_mode mode) (with_content bytes) (change path (opened before) m)
    ∙ change-change path (λ o. with_mode mode (with_content bytes o)) (opened before) m
    ∙ ap (λ f. change path f m) (λ i o. finished before mode bytes o i)

module _ (os : Os) where
  -- A write that succeeds leaves the content under the mode, and every other file as it was.
  pub write_with_mode_lem :
      (path : FilePath) (bytes : Bytes) (mode : ℕ) (m : Machine) {m' : Machine}
      → write_with_mode os path bytes mode m ≡ (ok tt, m')
      → m' ≡ put path (record { content = bytes; mode = mode }) m
  unfolding write_with_mode
  write_with_mode_lem path bytes mode m {m'} succeeded =
      ground (arith, overwritten path bytes mode (os.masked mode) m)

  -- Where the file is already there, it can be opened, written and synchronized, and the change of
  -- its mode is refused: the write fails, and the file holds the new bytes under its old mode.
  pub write_with_mode-exposed :
      (path : FilePath) (bytes : Bytes) (mode : ℕ) (m : Machine) (f : File) {refusal : String}
      → m.files path ≡ some f
      → os.open_error path ≡ none
      → os.write_error path ≡ none
      → os.sync_error path ≡ none
      → os.mode_error path ≡ some refusal
      → let outcome = write_with_mode os path bytes mode m in
        (outcome.0 ≡ err (io (os.display path) refusal))
        × (outcome.1.files path ≡ some (record { content = bytes; mode = f.mode }))
  unfolding write_with_mode
  write_with_mode-exposed path bytes mode m f there opens writes syncs refused = (
    rw (opens, writes, syncs, refused) refl,
    rw (opens, writes, syncs, refused, path_eq_refl path, there) refl,
  )

  -- The operating system refuses no call that writes.
  pub record IsWilling : Type 0 where
    pub opens : (p : FilePath) → os.open_error p ≡ none
    pub writes : (p : FilePath) → os.write_error p ≡ none
    pub syncs : (p : FilePath) → os.sync_error p ≡ none
    pub sets_mode : (p : FilePath) → os.mode_error p ≡ none
    pub creates : (d : String) → os.create_dir_error d ≡ none
    pub sets_dir_mode : (d : String) → os.dir_mode_error d ≡ none

  pub write_with_mode-willing :
      IsWilling
      → (path : FilePath) (bytes : Bytes) (mode : ℕ) (m : Machine)
      → write_with_mode os path bytes mode m
        ≡ (ok tt, put path (record { content = bytes; mode = mode }) m)
  unfolding write_with_mode
  write_with_mode-willing w path bytes mode m =
      rw (w.opens path, w.writes path, w.syncs path, w.sets_mode path)
        (ap (λ (k : Machine). (ok tt, k)) (overwritten path bytes mode (os.masked mode) m))
