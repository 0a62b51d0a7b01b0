-- ===== src/Core/Wire/Decoding.antt =====
-- `decode` on what `encode` wrote, and on any input.
use Prim.Native.Nat.{◌<◌, ◌^◌}
use mathlib.Core.Path.{subst}
use solana_hybrid_pq_account.Base.{
  ℕ, ◌+◌, ◌≡◌, refl, ap, ap₂, true, false, ◌↔◌, [], ◌∷◌, ◌++◌, ◌∙◌, arith, Bytes, length,
  length-append, ◌==◌, some, zero, suc, ◌⊎◌, ◌≤◌,
}
use solana_hybrid_pq_account.Base.Buffer.{slice, byte_at, length-slice, byte_at-slice_first}
use solana_hybrid_pq_account.Base.Layout.{
  zeros, length-zeros, slice-append_right, slice_first, slice_last, slice_middle,
  byte_at-append_right, slice-IsBytes, byte_at-IsU8,
}
use solana_hybrid_pq_account.Base.Words.{
  IsU64, IsBytes, to_le_bytes, from_le_bytes, length-to_le_bytes, from_le_bytes-to_le_bytes,
  from_le_bytes-lt,
}
use solana_hybrid_pq_account.Core.RecoveryOp.{RecoveryOp, enable, from_u8, as_u8}
use solana_hybrid_pq_account.Core.Error.{
  DualKeyError, ok, err, is_ok, malformed_instruction_data, unsupported_action,
}
use solana_hybrid_pq_account.Core.Intent.{
  Action, transfer_sol, rotate_ed25519_key, rotate_falcon_key, transfer_spl, change_policy,
  recover_account, set_recovery_config, cancel_social_recovery, tag, IsAction, IsKey,
}
use solana_hybrid_pq_account.Core.Canonical.Body.{action_body, length-action_body}
use solana_hybrid_pq_account.Core.Wire.{
  ExecuteIntentWire, encode, any_nonzero, from_wire_arm, from_wire, decode,
}
use solana_hybrid_pq_account.Core.Wire.Encoding.{encode-fields}

any_nonzero-zeros : (n : ℕ) → any_nonzero (zeros n) ≡ false
unfolding any_nonzero zeros
any_nonzero-zeros zero = refl
any_nonzero-zeros (suc n) = any_nonzero-zeros n

-- A key and a number behind it, read back.
key_of_pair : (k : Bytes) (n : ℕ) → IsKey k → slice 0 32 (k ++ to_le_bytes 8 n) ≡ k
key_of_pair k n h = slice_first k (to_le_bytes 8 n) 32 (omega arith)

number_of_pair :
    (k : Bytes) (n : ℕ) → IsKey k → IsU64 n → from_le_bytes (slice 32 8 (k ++ to_le_bytes 8 n)) ≡ n
number_of_pair k n h hn =
    ap from_le_bytes
      (slice_last k (to_le_bytes 8 n) 32 8 (omega arith) (omega (arith, length-to_le_bytes)))
    ∙ from_le_bytes-to_le_bytes 8 n hn

from_u8-as_u8 : (op : RecoveryOp) → from_u8 (as_u8 op) ≡ some op
unfolding from_u8 as_u8
from_u8-as_u8 enable = refl
from_u8-as_u8 _ = refl

-- Each arm reads back the body of the action with its tag.
from_wire_arm-action_body : (a : Action) → IsAction a → from_wire_arm (tag a) (action_body a) ≡ ok a
unfolding from_wire_arm tag action_body
from_wire_arm-action_body (transfer_sol k n) h =
    ap ok (ap₂ transfer_sol (key_of_pair k n h.0) (number_of_pair k n h.0 h.1))
from_wire_arm-action_body (rotate_ed25519_key k) h =
    ap ok (ap rotate_ed25519_key (slice_first k (zeros 8) 32 (omega arith)))
from_wire_arm-action_body (rotate_falcon_key k) h =
    ap ok (ap rotate_falcon_key (slice_first k (zeros 8) 32 (omega arith)))
from_wire_arm-action_body (transfer_spl k n) h =
    ap ok (ap₂ transfer_spl (key_of_pair k n h.0) (number_of_pair k n h.0 h.1))
from_wire_arm-action_body (change_policy p n) h = ap ok (
    ap₂ change_policy (byte_at-append_right [] p _ 0 refl) (
      ap from_le_bytes (
        slice_middle (p ∷ zeros 7) (to_le_bytes 8 n) (zeros 24) 8 8 (omega (arith, length-zeros))
          (omega (arith, length-to_le_bytes)))
      ∙ from_le_bytes-to_le_bytes 8 n h.1))
from_wire_arm-action_body (recover_account op k) h =
    simp (byte_at-append_right [] (as_u8 op) (zeros 7 ++ k) 0 refl, from_u8-as_u8)
      (ap ok (
        ap (recover_account op)
          (slice_last (as_u8 op ∷ zeros 7) k 8 32 (omega (arith, length-zeros)) (omega arith))))
from_wire_arm-action_body (set_recovery_config k n) h =
    ap ok (ap₂ set_recovery_config (key_of_pair k n h.0) (number_of_pair k n h.0 h.1))
from_wire_arm-action_body cancel_social_recovery h = rw any_nonzero-zeros

-- `decode` on a fragment that is cut into its three fields.
decode_fields :
    (bytes e : Bytes) (t : ℕ) (b : Bytes) (a : Action)
    → bytes ≡ e ++ (t ∷ b)
    → length e ≡ 8
    → length b ≡ 40
    → from_wire_arm t b ≡ ok a
    → decode bytes ≡ ok (record { expiry_slot = from_le_bytes e; action = a })
unfolding decode from_wire
decode_fields bytes e t b a split le lb arm =
    let size : (length (e ++ (t ∷ b)) == 49) ≡ true = ground (arith, length-append e (t ∷ b)) in
    let body_size : (length b == 40) ≡ true = ground arith in
    let body =
      slice-append_right e (t ∷ b) 9 1 40 (omega arith)
      ∙ slice_last (t ∷ []) b 1 40 refl (omega arith) in
    rw split (
      simp (
        size,
        slice_first e (t ∷ b) 8 (omega arith),
        byte_at-append_right e t b 8 (omega arith),
        body,
        body_size,
        arm,
      ))

-- What `encode` wrote decodes to the same expiry slot and action.
pub decode-encode :
    (w : ExecuteIntentWire) → IsU64 w.expiry_slot → IsAction w.action → decode (encode w) ≡ ok w
decode-encode w he ha =
    decode_fields (encode w) (to_le_bytes 8 w.expiry_slot) (tag w.action) (action_body w.action)
      w.action (encode-fields w ha) (length-to_le_bytes 8 w.expiry_slot)
      (length-action_body w.action ha) (from_wire_arm-action_body w.action ha)
    ∙ ap (λ x. ok (record { expiry_slot = x; action = w.action }))
        (from_le_bytes-to_le_bytes 8 w.expiry_slot he)

-- The fragments that `decode` accepts.
pub record IsFragment (bytes : Bytes) : Type 0 where
  pub size : length bytes ≡ 49
  pub tag_low : 1 ≤ byte_at 8 bytes
  pub tag_high : byte_at 8 bytes ≤ 8
  pub known_op : byte_at 8 bytes ≡ 6 → byte_at 9 bytes ≤ 2
  pub blank : byte_at 8 bytes ≡ 8 → any_nonzero (slice 9 40 bytes) ≡ false

slice-IsKey : (o : ℕ) (b : Bytes) → length b ≡ 40 → o + 32 ≤ 40 → IsBytes b → IsKey (slice o 32 b)
slice-IsKey o b e h hb = (length-slice o 32 b (omega arith), slice-IsBytes o 32 b hb)

number_of_body :
    (o : ℕ) (b : Bytes) → o + 8 ≤ length b → IsBytes b → IsU64 (from_le_bytes (slice o 8 b))
number_of_body o b h hb =
    subst (λ k. from_le_bytes (slice o 8 b) < 256 ^ k) (length-slice o 8 b h)
      (from_le_bytes-lt (slice o 8 b) (slice-IsBytes o 8 b hb))

from_wire_arm-IsAction :
    (t : ℕ) (b : Bytes) (a : Action)
    → length b ≡ 40
    → IsBytes b
    → from_wire_arm t b ≡ ok a
    → IsAction a
unfolding from_wire_arm
from_wire_arm-IsAction t b a e hb h = ground (
  arith,
  slice-IsKey 0 b e (omega arith) hb,
  slice-IsKey 8 b e (omega arith) hb,
  number_of_body 32 b (omega arith) hb,
  number_of_body 8 b (omega arith) hb,
  byte_at-IsU8 0 b hb,
)

-- Whatever bytes `decode` accepts, the slot and the action are in the ranges of their types.
pub decode-IsAction :
    (bytes : Bytes) (w : ExecuteIntentWire)
    → IsBytes bytes
    → decode bytes ≡ ok w
    → IsU64 w.expiry_slot × IsAction w.action
unfolding decode from_wire
decode-IsAction bytes w hb h = ground (
  arith,
  number_of_body 0 bytes,
  length-slice 9 40 bytes,
  slice-IsBytes 9 40 bytes hb,
  from_wire_arm-IsAction (byte_at 8 bytes) (slice 9 40 bytes) w.action,
)

-- `decode` accepts exactly the 49-byte fragments with a tag from 1 to 8, in which a recovery
-- carries a known operation and a cancellation an all-zero body.
pub decode_accepts : (bytes : Bytes) → (is_ok (decode bytes) ≡ true) ↔ IsFragment bytes
unfolding decode from_wire from_wire_arm from_u8
decode_accepts bytes = (
  λ h. ground (arith, byte_at-slice_first 9 40 bytes (omega arith)),
  λ h. ground (
    arith,
    h.known_op,
    h.blank,
    byte_at-slice_first 9 40 bytes (omega arith),
    length-slice 9 40 bytes,
  ),
)

-- A fragment is refused as malformed, or as an action that is not supported, and for no other
-- reason.
pub decode_errors :
    (bytes : Bytes) (e : DualKeyError)
    → decode bytes ≡ err e
    → (e ≡ malformed_instruction_data) ⊎ (e ≡ unsupported_action)
unfolding decode from_wire from_wire_arm
decode_errors bytes e h = ground arith
