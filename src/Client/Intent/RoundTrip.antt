-- ===== src/Client/Intent/RoundTrip.antt =====
-- The JSON form of an intent, there and back.
use Prim.Native.String.{String}
use solana_hybrid_pq_account.Base.{some, ◌≡◌, refl, Bytes, length, arith, inl, inr}
use solana_hybrid_pq_account.Base.Words.{IsU8, IsU64}
use solana_hybrid_pq_account.Core.RecoveryOp.{RecoveryOp, from_u8, as_u8}
use solana_hybrid_pq_account.Core.Intent.{Action, AuthorizationIntent, IsKey, IsAction, IsIntent}
use solana_hybrid_pq_account.Client.Crates.{Crates, IsHex, Decoded-cases}
use solana_hybrid_pq_account.Client.Error.{Result, ok, ◌>>=◌, ok_or, >>=-eq-ok}
use solana_hybrid_pq_account.Client.Intent.{
  ActionSpec, IntentSpec, hex32, to_action, to_intent, from_action, from_intent,
}

from_u8-as_u8 : (op : RecoveryOp) → from_u8 (as_u8 op) ≡ some op
unfolding from_u8 as_u8
from_u8-as_u8 RecoveryOp.enable = refl
from_u8-as_u8 RecoveryOp.disable = refl
from_u8-as_u8 RecoveryOp.rotate_ed25519 = refl

-- The ranges that serde gives to the numbers of the JSON form.
abbrev pub IsActionSpec : ActionSpec → Type 0
IsActionSpec (ActionSpec.transfer_sol _ lamports) = IsU64 lamports
IsActionSpec (ActionSpec.transfer_spl _ amount) = IsU64 amount
IsActionSpec (ActionSpec.rotate_ed25519_key _) = Unit {0}
IsActionSpec (ActionSpec.rotate_falcon_key _) = Unit {0}
IsActionSpec (ActionSpec.change_policy policy threshold) = IsU8 policy × IsU64 threshold
IsActionSpec (ActionSpec.recover_account op _) = IsU8 op
IsActionSpec (ActionSpec.set_recovery_config _ delay) = IsU64 delay
IsActionSpec ActionSpec.cancel_social_recovery = Unit {0}

pub record IsIntentSpec (spec : IntentSpec) : Type 0 where
  pub version_range : IsU8 spec.version
  pub nonce_range : IsU64 spec.nonce
  pub expiry_slot_range : IsU64 spec.expiry_slot
  pub action_range : IsActionSpec spec.action

module _ (c : Crates) (h : IsHex c) where
  hex32-hex_encode : (field : String) (k : Bytes) → IsKey k → hex32 c field (c.hex_encode k) ≡ ok k
  unfolding hex32
  hex32-hex_encode field k (size, bytes) = ground (arith, h.decode-encode k bytes)

  to_action-from_action : (a : Action) → IsAction a → to_action c (from_action c a) ≡ ok a
  unfolding to_action from_action
  to_action-from_action (Action.transfer_sol k n) r =
      ground (arith, hex32-hex_encode "action.recipient" k r.0)
  to_action-from_action (Action.transfer_spl k n) r =
      ground (arith, hex32-hex_encode "action.destination" k r.0)
  to_action-from_action (Action.rotate_ed25519_key k) r =
      ground (arith, hex32-hex_encode "action.new_pubkey" k r)
  to_action-from_action (Action.rotate_falcon_key k) r =
      ground (arith, hex32-hex_encode "action.new_pubkey_hash" k r)
  to_action-from_action (Action.change_policy p n) r = refl
  to_action-from_action (Action.recover_account op k) r =
      ground (arith, from_u8-as_u8 op, hex32-hex_encode "action.new_ed25519" k r)
  to_action-from_action (Action.set_recovery_config k n) r =
      ground (arith, hex32-hex_encode "action.guardian_ed25519" k r.0)
  to_action-from_action Action.cancel_social_recovery r = refl

  -- If `hex` reads what it wrote: every intent reads back from its JSON form.
  pub to_intent-from_intent :
      (i : AuthorizationIntent) → IsIntent i → to_intent c (from_intent c i) ≡ ok i
  unfolding to_intent from_intent
  to_intent-from_intent i r = ground (
    arith,
    to_action-from_action i.action r.action_range,
    hex32-hex_encode "chain_domain" i.chain_domain r.chain_domain_range,
    hex32-hex_encode "program_id" i.program_id r.program_id_range,
    hex32-hex_encode "account" i.account r.account_range,
  )

  hex32-IsKey : (field s : String) (k : Bytes) → hex32 c field s ≡ ok k → IsKey k
  unfolding hex32
  hex32-IsKey field s k e = elim (Decoded-cases (c.hex_decode s)) [
    | inl (b, d) ↦
        let (same, size) : (k ≡ b) × (length b ≡ 32) = ground arith in
        rw same (size, h.decode-IsBytes s b d)
    | inr (m, d) ↦ absurd (ground arith)
  ]

  -- A key that an arm of `to_action` or `to_intent` reads, and what follows.
  keyed {ℓ} :
      {B : Type ℓ} (field s : String) (f : Bytes → Result B) (b : B)
      → (hex32 c field s >>= f) ≡ ok b
      → (k : Bytes) × IsKey k × (f k ≡ ok b)
  keyed field s f b e =
      let (k, d, rest) = >>=-eq-ok (hex32 c field s) f e in (k, hex32-IsKey field s k d, rest)

  to_action-IsAction :
      (spec : ActionSpec) (a : Action) → IsActionSpec spec → to_action c spec ≡ ok a → IsAction a
  unfolding to_action
  to_action-IsAction (ActionSpec.transfer_sol s n) a r e =
      let (k, key, at) = keyed "action.recipient" s _ a e in
      let same : a ≡ Action.transfer_sol k n = cc in rw same (key, r)
  to_action-IsAction (ActionSpec.transfer_spl s n) a r e =
      let (k, key, at) = keyed "action.destination" s _ a e in
      let same : a ≡ Action.transfer_spl k n = cc in rw same (key, r)
  to_action-IsAction (ActionSpec.rotate_ed25519_key s) a r e =
      let (k, key, at) = keyed "action.new_pubkey" s _ a e in
      let same : a ≡ Action.rotate_ed25519_key k = cc in rw same key
  to_action-IsAction (ActionSpec.rotate_falcon_key s) a r e =
      let (k, key, at) = keyed "action.new_pubkey_hash" s _ a e in
      let same : a ≡ Action.rotate_falcon_key k = cc in rw same key
  to_action-IsAction (ActionSpec.change_policy p n) a r e =
      let same : a ≡ Action.change_policy p n = cc in rw same r
  to_action-IsAction (ActionSpec.recover_account o s) a r e =
      let (op, known, rest) = >>=-eq-ok (ok_or (from_u8 o) _) _ e in
      let (k, key, at) = keyed "action.new_ed25519" s _ a rest in
      let same : a ≡ Action.recover_account op k = cc in rw same key
  to_action-IsAction (ActionSpec.set_recovery_config s n) a r e =
      let (k, key, at) = keyed "action.guardian_ed25519" s _ a e in
      let same : a ≡ Action.set_recovery_config k n = cc in rw same (key, r)
  to_action-IsAction ActionSpec.cancel_social_recovery a r e =
      let same : a ≡ Action.cancel_social_recovery = cc in rw same tt

  -- If what `hex` reads are bytes: an intent that is read from JSON is well-formed, each of its
  -- keys 32 bytes and each number in its range.
  pub to_intent-IsIntent :
      (spec : IntentSpec) (i : AuthorizationIntent)
      → IsIntentSpec spec
      → to_intent c spec ≡ ok i
      → IsIntent i
  unfolding to_intent
  to_intent-IsIntent spec i r e =
      let (a, ea, e₁) = >>=-eq-ok (to_action c spec.action) _ e in
      let (domain, kd, e₂) = keyed "chain_domain" spec.chain_domain _ i e₁ in
      let (program, kp, e₃) = keyed "program_id" spec.program_id _ i e₂ in
      let (key, ka, e₄) = keyed "account" spec.account _ i e₃ in
      let same : i ≡ record {
        version = spec.version;
        chain_domain = domain;
        program_id = program;
        account = key;
        nonce = spec.nonce;
        expiry_slot = spec.expiry_slot;
        action = a;
      } =
        cc in
      rw same (record {
        version_range = r.version_range;
        chain_domain_range = kd;
        program_id_range = kp;
        account_range = ka;
        nonce_range = r.nonce_range;
        expiry_slot_range = r.expiry_slot_range;
        action_range = to_action-IsAction spec.action a r.action_range ea;
      })
