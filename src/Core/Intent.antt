-- ===== src/Core/Intent.antt =====
-- core/src/intent.rs: the actions and the authorization intent.
use solana_hybrid_pq_account.Base.{ℕ, Bool, true, false, ◌≡◌, Bytes, length}
use solana_hybrid_pq_account.Core.RecoveryOp.{RecoveryOp}
use solana_hybrid_pq_account.Base.Words.{IsU8, IsU64, IsBytes}

pub data Action : Type 0 where
  -- recipient, lamports
  transfer_sol : Bytes → ℕ → Action
  -- new_pubkey
  rotate_ed25519_key : Bytes → Action
  -- new_pubkey_hash
  rotate_falcon_key : Bytes → Action
  -- destination, amount
  transfer_spl : Bytes → ℕ → Action
  -- new_policy, threshold
  change_policy : ℕ → ℕ → Action
  -- op, new_ed25519
  recover_account : RecoveryOp → Bytes → Action
  -- guardian_ed25519, delay_slots
  set_recovery_config : Bytes → ℕ → Action
  cancel_social_recovery : Action

unfoldable pub tag : Action → ℕ
tag (transfer_sol _ _) = 1
tag (transfer_spl _ _) = 2
tag (rotate_ed25519_key _) = 3
tag (rotate_falcon_key _) = 4
tag (change_policy _ _) = 5
tag (recover_account _ _) = 6
tag (set_recovery_config _ _) = 7
tag cancel_social_recovery = 8

unfoldable pub is_privileged : Action → Bool
is_privileged (transfer_sol _ _) = false
is_privileged (transfer_spl _ _) = false
is_privileged (rotate_ed25519_key _) = true
is_privileged (rotate_falcon_key _) = true
is_privileged (change_policy _ _) = true
is_privileged (recover_account _ _) = true
is_privileged (set_recovery_config _ _) = true
is_privileged cancel_social_recovery = true

pub record AuthorizationIntent : Type 0 where
  pub version : ℕ
  pub chain_domain : Bytes
  pub program_id : Bytes
  pub account : Bytes
  pub nonce : ℕ
  pub expiry_slot : ℕ
  pub action : Action

abbrev pub intent_version : ℕ
intent_version = 1

-- `AuthorizationIntent::new`
unfoldable pub new : Bytes → Bytes → Bytes → ℕ → ℕ → Action → AuthorizationIntent
new domain program key nonce expiry action = record {
  version = intent_version;
  chain_domain = domain;
  program_id = program;
  account = key;
  nonce = nonce;
  expiry_slot = expiry;
  action = action;
}

-- The ranges that Rust's types give: `[u8; 32]`, `u8` and `u64`.
abbrev pub IsKey : Bytes → Type 0
IsKey k = (length k ≡ 32) × IsBytes k

abbrev pub IsAction : Action → Type 0
IsAction (transfer_sol recipient lamports) = IsKey recipient × IsU64 lamports
IsAction (rotate_ed25519_key key) = IsKey key
IsAction (rotate_falcon_key hash) = IsKey hash
IsAction (transfer_spl destination amount) = IsKey destination × IsU64 amount
IsAction (change_policy policy threshold) = IsU8 policy × IsU64 threshold
IsAction (recover_account op key) = IsKey key
IsAction (set_recovery_config guardian delay) = IsKey guardian × IsU64 delay
IsAction cancel_social_recovery = Unit {0}

pub record IsIntent (i : AuthorizationIntent) : Type 0 where
  pub version_range : IsU8 i.version
  pub chain_domain_range : IsKey i.chain_domain
  pub program_id_range : IsKey i.program_id
  pub account_range : IsKey i.account
  pub nonce_range : IsU64 i.nonce
  pub expiry_slot_range : IsU64 i.expiry_slot
  pub action_range : IsAction i.action
