-- ===== src/Client/Intent.antt =====
-- client/src/intent.rs: the JSON form of an intent, as the values that serde gives.
pub mod RoundTrip
use Prim.Native.String.{String, ◌++◌ as ◌<>◌}
use solana_hybrid_pq_account.Base.{
  ℕ, ◌+◌, ◌/◌, ◌%◌, Bool, true, false, Option, none, some, Bytes, length, ltb, ◌==◌, if◌then◌else◌,
}
use solana_hybrid_pq_account.Core.RecoveryOp.{RecoveryOp, from_u8, as_u8}
use solana_hybrid_pq_account.Core.Intent.{Action, AuthorizationIntent, intent_version}
use solana_hybrid_pq_account.Client.Crates.{Crates, decoded, malformed}
use solana_hybrid_pq_account.Client.Error.{
  Result, ok, err, ◌>>=◌, ◌>>◌, require, ok_or, intent_format, hex,
}

pub data ActionSpec : Type 0 where
  -- recipient, lamports
  transfer_sol : String → ℕ → ActionSpec
  -- destination, amount
  transfer_spl : String → ℕ → ActionSpec
  -- new_pubkey
  rotate_ed25519_key : String → ActionSpec
  -- new_pubkey_hash
  rotate_falcon_key : String → ActionSpec
  -- new_policy, threshold
  change_policy : ℕ → ℕ → ActionSpec
  -- op, new_ed25519
  recover_account : ℕ → String → ActionSpec
  -- guardian_ed25519, delay_slots
  set_recovery_config : String → ℕ → ActionSpec
  cancel_social_recovery : ActionSpec

pub record IntentSpec : Type 0 where
  pub version : ℕ
  pub chain_domain : String
  pub program_id : String
  pub account : String
  pub nonce : ℕ
  pub expiry_slot : ℕ
  pub action : ActionSpec

unfoldable pub default_version : ℕ
default_version = intent_version

-- `{n}` in a format string, for an `n : u8`.
abbrev digit : ℕ → String
digit n =
    if n == 0
    then "0"
    else if n == 1
    then "1"
    else if n == 2
    then "2"
    else if n == 3
    then "3"
    else if n == 4
    then "4"
    else if n == 5
    then "5"
    else if n == 6
    then "6"
    else if n == 7
    then "7"
    else if n == 8
    then "8"
    else "9"

unfoldable pub format_u8 : ℕ → String
format_u8 n =
    if ltb n 10
    then digit n
    else if ltb n 100
    then digit (n / 10) <> digit (n % 10)
    else digit (n / 100) <> (digit (n / 10 % 10) <> digit (n % 10))

module _ (c : Crates) where
  unfoldable pub hex32 : String → String → Result Bytes
  hex32 field value = elim (c.hex_decode value) [
    | malformed source ↦ err (hex field source)
    | decoded bytes ↦
        if length bytes == 32
        then ok bytes
        else err (intent_format field (field <> " must be exactly 32 bytes (64 hex chars)"))
  ]

  -- The `match &self.action` of `to_intent`.
  unfoldable pub to_action : ActionSpec → Result Action
  to_action (ActionSpec.transfer_sol recipient lamports) = do
    k ← hex32 "action.recipient" recipient
    ok (Action.transfer_sol k lamports)
  to_action (ActionSpec.transfer_spl destination amount) = do
    k ← hex32 "action.destination" destination
    ok (Action.transfer_spl k amount)
  to_action (ActionSpec.rotate_ed25519_key new_pubkey) = do
    k ← hex32 "action.new_pubkey" new_pubkey
    ok (Action.rotate_ed25519_key k)
  to_action (ActionSpec.rotate_falcon_key new_pubkey_hash) = do
    k ← hex32 "action.new_pubkey_hash" new_pubkey_hash
    ok (Action.rotate_falcon_key k)
  to_action (ActionSpec.change_policy new_policy threshold) =
      ok (Action.change_policy new_policy threshold)
  to_action (ActionSpec.recover_account op new_ed25519) = do
    o ← ok_or (from_u8 op) (intent_format "action.op" ("unknown recovery op " <> format_u8 op))
    k ← hex32 "action.new_ed25519" new_ed25519
    ok (Action.recover_account o k)
  to_action (ActionSpec.set_recovery_config guardian_ed25519 delay_slots) = do
    k ← hex32 "action.guardian_ed25519" guardian_ed25519
    ok (Action.set_recovery_config k delay_slots)
  to_action ActionSpec.cancel_social_recovery = ok Action.cancel_social_recovery

  unfoldable pub to_intent : IntentSpec → Result AuthorizationIntent
  to_intent spec = do
    action ← to_action spec.action
    domain ← hex32 "chain_domain" spec.chain_domain
    program ← hex32 "program_id" spec.program_id
    key ← hex32 "account" spec.account
    ok (record {
      version = spec.version;
      chain_domain = domain;
      program_id = program;
      account = key;
      nonce = spec.nonce;
      expiry_slot = spec.expiry_slot;
      action = action;
    })

  -- The `match intent.action` of `from_intent`.
  unfoldable pub from_action : Action → ActionSpec
  from_action (Action.transfer_sol recipient lamports) =
      ActionSpec.transfer_sol (c.hex_encode recipient) lamports
  from_action (Action.transfer_spl destination amount) =
      ActionSpec.transfer_spl (c.hex_encode destination) amount
  from_action (Action.rotate_ed25519_key new_pubkey) =
      ActionSpec.rotate_ed25519_key (c.hex_encode new_pubkey)
  from_action (Action.rotate_falcon_key new_pubkey_hash) =
      ActionSpec.rotate_falcon_key (c.hex_encode new_pubkey_hash)
  from_action (Action.change_policy new_policy threshold) =
      ActionSpec.change_policy new_policy threshold
  from_action (Action.recover_account op new_ed25519) =
      ActionSpec.recover_account (as_u8 op) (c.hex_encode new_ed25519)
  from_action (Action.set_recovery_config guardian_ed25519 delay_slots) =
      ActionSpec.set_recovery_config (c.hex_encode guardian_ed25519) delay_slots
  from_action Action.cancel_social_recovery = ActionSpec.cancel_social_recovery

  unfoldable pub from_intent : AuthorizationIntent → IntentSpec
  from_intent i = record {
    version = i.version;
    chain_domain = c.hex_encode i.chain_domain;
    program_id = c.hex_encode i.program_id;
    account = c.hex_encode i.account;
    nonce = i.nonce;
    expiry_slot = i.expiry_slot;
    action = from_action i.action;
  }
