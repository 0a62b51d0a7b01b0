-- ===== src/Program/Runtime.antt =====
-- What the program uses of the Solana runtime and of third-party crates.
--
-- The accounts of a transaction are a total map from keys to states, so two infos with one key
-- are one account, as in the runtime; an account that does not exist has no lamports and no data.
-- A handler returns the new map or an error, in which case the runtime keeps the old one.
-- `try_borrow_*` fails only while another borrow of the account lives; the handlers drop each
-- borrow before the next, and hold two only for the two distinct accounts of `transfer_sol`.
pub mod Frames
use solana_hybrid_pq_account.Base.{
  ℕ, ◌+◌, ◌-◌, ◌^◌, ◌≤◌, ◌==◌, [], ◌∷◌, take, drop, Bool, Option, none, some, List, Bytes, ◌==ᵇ◌,
  ltb, leb, if◌then◌else◌, length, ◌≡◌, ◌≢◌, refl, arith, ==ᵇ_iff, Bool-cases, inl, inr, true,
  false,
}
use solana_hybrid_pq_account.Base.Buffer.{slice}

-- The state of one account.
pub record Account : Type 0 where
  pub lamports : ℕ
  pub owner : Bytes
  pub content : Bytes

abbrev pub World : Type 0
World = Bytes → Account

unfoldable pub update : World → Bytes → Account → World
update w k a j = if j ==ᵇ k then a else w j

pub update_self : (w : World) (k : Bytes) (a : Account) → update w k a k ≡ a
unfolding update
update_self w k a = rw ((==ᵇ_iff k k).1 refl)

pub update_ne : (w : World) (k j : Bytes) (a : Account) → j ≢ k → update w k a j ≡ w j
unfolding update
update_ne w k j a ne = elim (Bool-cases (j ==ᵇ k)) [
  | inl same ↦ absurd (ne ((==ᵇ_iff j k).0 same))
  | inr other ↦ rw other
]

-- An `AccountInfo`, without the state that it refers to.
pub record AccountInfo : Type 0 where
  pub key : Bytes
  pub is_signer : Bool
  pub is_writable : Bool

pub record AccountMeta : Type 0 where
  pub pubkey : Bytes
  pub signer : Bool
  pub writable : Bool

pub record Instruction : Type 0 where
  pub program : Bytes
  pub metas : List AccountMeta
  pub payload : Bytes

-- The instructions that the program invokes.
pub data Cpi : Type 0 where
  -- from, to, lamports
  system_transfer : Bytes → Bytes → ℕ → Cpi
  -- account, space
  system_allocate : Bytes → ℕ → Cpi
  -- account, owner
  system_assign : Bytes → Bytes → Cpi
  token_instruction : Instruction → Cpi

pub record Runtime : Type 0 where
  -- `Clock::get()?.slot` and `Rent::get()?.minimum_balance`
  pub clock_slot : Option ℕ
  pub minimum_balance : Option (ℕ → ℕ)
  -- `get_instruction_relative(-1, sysvar)`
  pub previous_instruction : Option Instruction
  pub sha256 : Bytes → Bytes
  -- seeds, program id
  pub find_program_address : List Bytes → Bytes → Option (Bytes × ℕ)
  pub create_program_address : List Bytes → Bytes → Option Bytes
  -- solana-falcon512: the checked constructors, the verifiers and `try_prepare_pubkey`
  pub prepared_from_slice : Bytes → Option Bytes
  pub signature_from_slice : Bytes → Option Bytes
  pub pubkey_from_slice : Bytes → Option Bytes
  -- signature, message, key
  pub verify_with_prepared : Bytes → Bytes → Bytes → Bool
  pub verify : Bytes → Bytes → Bytes → Bool
  pub try_prepare_pubkey : Bytes → Option Bytes
  -- instruction, signer seeds
  pub invoke_signed : Cpi → List (List Bytes) → World → Option World
  pub instructions_sysvar_id : Bytes
  pub ed25519_program_id : Bytes
  pub system_program_id : Bytes
  pub token_program_id : Bytes
  pub token_2022_program_id : Bytes
  -- The cluster's constant, chosen by a Cargo feature.
  pub chain_domain : Bytes

-- `u64::checked_add` and `u64::checked_sub`
unfoldable pub checked_add : ℕ → ℕ → Option ℕ
checked_add a b = if ltb (a + b) (2 ^ 64) then some (a + b) else none

unfoldable pub checked_sub : ℕ → ℕ → Option ℕ
checked_sub a b = if leb b a then some (a - b) else none

-- `bytes.get(o..o + n)` and `bytes.split_at_checked(n)`
unfoldable pub get_range : ℕ → ℕ → Bytes → Option Bytes
get_range o n bytes = if leb (o + n) (length bytes) then some (slice o n bytes) else none

unfoldable pub split_at_checked : ℕ → Bytes → Option (Bytes × Bytes)
split_at_checked n bytes = if leb n (length bytes) then some (take n bytes, drop n bytes) else none

-- A write to an account's data, and to its lamports.
unfoldable pub set_content : Bytes → Bytes → World → World
set_content k bytes w =
    update w k (record { lamports = (w k).lamports; owner = (w k).owner; content = bytes })

unfoldable pub set_lamports : Bytes → ℕ → World → World
set_lamports k amount w =
    update w k (record { lamports = amount; owner = (w k).owner; content = (w k).content })

-- `data_is_empty()`
unfoldable pub data_is_empty : Account → Bool
data_is_empty a = length a.content == 0

-- `let [a, b] = accounts else { .. }`, by the number of accounts.
abbrev pub two_accounts : List AccountInfo → Option (AccountInfo × AccountInfo)
two_accounts (a ∷ b ∷ []) = some (a, b)
two_accounts _ = none

abbrev pub three_accounts : List AccountInfo → Option (AccountInfo × AccountInfo × AccountInfo)
three_accounts (a ∷ b ∷ c ∷ []) = some (a, b, c)
three_accounts _ = none

pub split_at_checked_lem :
    (n : ℕ) (bytes : Bytes)
    → n ≤ length bytes
    → split_at_checked n bytes ≡ some (take n bytes, drop n bytes)
unfolding split_at_checked
split_at_checked_lem n bytes h = ground arith
