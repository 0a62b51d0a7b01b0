-- ===== src/Client/Machine.antt =====
-- The files of the client's machine, and what std and the operating system do for it: a failing
-- step returns its error and leaves the machine in the state that it has reached.
pub mod Success
use Prim.Native.String.{String}
use text.Mathlib.Text.{◌==◌ as str_eq}
use solana_hybrid_pq_account.Base.{
  ℕ, ◌+◌, ◌≡◌, Bool, true, false, ◌&&◌, Option, none, some, List, [], Bytes, if◌then◌else◌,
}
use solana_hybrid_pq_account.Program.Runtime.{Instruction}
use solana_hybrid_pq_account.Client.Error.{ClientError, Result, ok, err, io}

-- A directory, and a name in it.
pub record FilePath : Type 0 where
  pub dir : String
  pub name : String

abbrev pub path_eq : FilePath → FilePath → Bool
path_eq p q = str_eq p.name q.name && str_eq p.dir q.dir

pub record File : Type 0 where
  pub content : Bytes
  pub mode : ℕ

-- solana_transaction's `Transaction`: what `new_with_payer` is given, the blockhash, the signatures.
pub record Transaction : Type 0 where
  pub payer : Bytes
  pub instructions : List Instruction
  pub recent_blockhash : Bytes
  pub signatures : List Bytes

-- `draws` counts the calls of what is randomized; `posted` has the transactions that a node was given,
-- the last one first.
pub record Machine : Type 0 where
  pub files : FilePath → Option File
  pub dir_modes : String → Option ℕ
  pub draws : ℕ
  pub posted : List Transaction

-- The refusals of the operating system, as the texts of its errors, and its other answers.
pub record Os : Type 0 where
  pub open_error : FilePath → Option String
  pub write_error : FilePath → Option String
  -- How much of a write that fails has reached the file.
  pub written : FilePath → Bytes → Bytes
  pub sync_error : FilePath → Option String
  pub mode_error : FilePath → Option String
  pub read_error : FilePath → Option String
  pub create_dir_error : String → Option String
  pub dir_mode_error : String → Option String
  pub not_found : String
  -- The mode of a new file, by the mode that is asked for.
  pub masked : ℕ → ℕ
  pub display : FilePath → String
  -- `OsRng` and `falcon512::keypair`, by the number of the call: a seed; a public and a secret key.
  pub random_seed : ℕ → Bytes
  pub falcon_keypair : ℕ → Bytes × Bytes

abbrev pub M {ℓ} : Type ℓ → Type ℓ
M A = Machine → Result A × Machine

abbrev pub continue {ℓ κ} :
    {A : Type ℓ} {B : Type κ} → Result A × Machine → (A → M B) → Result B × Machine
continue (ok a, m) rest = rest a m
continue (err e, m) rest = (err e, m)

infixl 5 ◌>>=◌ ◌>>◌
abbrev pub ◌>>=◌ {ℓ κ} : {A : Type ℓ} {B : Type κ} → M A → (A → M B) → M B
◌>>=◌ first rest m = continue (first m) rest

abbrev pub ◌>>◌ {ℓ} : {B : Type ℓ} → M (Unit {0}) → M B → M B
first >> rest = first >>= λ _. rest

abbrev pub pure {ℓ} : {A : Type ℓ} → A → M A
pure a m = (ok a, m)

abbrev pub lift {ℓ} : {A : Type ℓ} → Result A → M A
lift r m = (r, m)

-- The number of the next randomized call.
abbrev pub draw : M ℕ
draw m = (ok m.draws, record m { draws = m.draws + 1 })

-- A call of the operating system about a path, with what it leaves where it fails.
abbrev pub os_call :
    String → Option String → (Machine → Machine) → (Machine → Machine) → M (Unit {0})
os_call shown none done failed m = (ok tt, done m)
os_call shown (some text) done failed m = (err (io shown text), failed m)

abbrev pub put : FilePath → File → Machine → Machine
put p f m = record m { files = λ q. if path_eq q p then some f else m.files q }

abbrev pub set_dir_mode : String → ℕ → Machine → Machine
set_dir_mode dir mode m = record m {
  dir_modes = λ d. if str_eq d dir then some mode else m.dir_modes d;
}

-- The file, if it is there, with other content or another mode.
abbrev pub with_content : Bytes → Option File → Option File
with_content bytes none = none
with_content bytes (some f) = some (record f { content = bytes })

abbrev pub with_mode : ℕ → Option File → Option File
with_mode mode none = none
with_mode mode (some f) = some (record f { mode = mode })

abbrev pub change : FilePath → (Option File → Option File) → Machine → Machine
change p f m = record m { files = λ q. if path_eq q p then f (m.files q) else m.files q }

-- `create(true).truncate(true).mode(mode)`
abbrev pub opened : ℕ → Option File → Option File
opened mode none = some (record { content = []; mode = mode })
opened mode (some f) = some (record f { content = [] })
