-- ===== src/Core/Wire/Encoding.antt =====
-- `encode` against the concatenation of its fields, and against the preimage.
use mathlib.Core.List.{append-nil, append_assoc}
use solana_hybrid_pq_account.Base.{
  ◌≡◌, refl, sym, ap, [], ◌∷◌, ◌++◌, ◌∙◌, arith, Bytes, length, length-append, drop-append, drop,
}
use solana_hybrid_pq_account.Base.Layout.{zeros, zeros-zero, length-zeros, write_next}
use solana_hybrid_pq_account.Base.Buffer.{length-write}
use solana_hybrid_pq_account.Base.Words.{to_le_bytes, length-to_le_bytes}
use solana_hybrid_pq_account.Core.RecoveryOp.{as_u8}
use solana_hybrid_pq_account.Core.Intent.{
  Action, transfer_sol, rotate_ed25519_key, rotate_falcon_key, transfer_spl, change_policy,
  recover_account, set_recovery_config, cancel_social_recovery, tag, IsAction, AuthorizationIntent,
  IsIntent,
}
use solana_hybrid_pq_account.Core.Canonical.{canonical_preimage}
use solana_hybrid_pq_account.Core.Canonical.Body.{action_body, write_key, write_pair, write_gap}
use solana_hybrid_pq_account.Core.Canonical.Fields.{
  context_fields, length-context_fields, canonical_preimage-fields,
}
use solana_hybrid_pq_account.Core.Wire.{ExecuteIntentWire, encode_body, encode, from_intent}

encode_body-action_body :
    (a : Action) (p : Bytes)
    → IsAction a
    → length p ≡ 9
    → encode_body a (p ++ zeros 40) ≡ p ++ action_body a
unfolding encode_body action_body
encode_body-action_body (transfer_sol r l) p h e =
    write_pair p 9 (omega arith) r (to_le_bytes 8 l) 40 41 (omega (arith, length-to_le_bytes))
      (omega arith)
encode_body-action_body (rotate_ed25519_key k) p h e =
    write_key p 9 (omega arith) k 40 8 (omega arith)
encode_body-action_body (rotate_falcon_key k) p h e =
    write_key p 9 (omega arith) k 40 8 (omega arith)
encode_body-action_body (transfer_spl r l) p h e =
    write_pair p 9 (omega arith) r (to_le_bytes 8 l) 40 41 (omega (arith, length-to_le_bytes))
      (omega arith)
encode_body-action_body (change_policy b t) p h e =
    write_gap p 9 (omega arith) b (to_le_bytes 8 t) 40 24 (omega (arith, length-to_le_bytes))
encode_body-action_body (recover_account op k) p h e =
    write_gap p 9 (omega arith) (as_u8 op) k 40 0 (omega arith)
    ∙ ap (λ l. p ++ (as_u8 op ∷ (zeros 7 ++ k ++ l))) zeros-zero
    ∙ ap (λ l. p ++ (as_u8 op ∷ l)) (append-nil (zeros 7 ++ k))
encode_body-action_body (set_recovery_config g d) p h e =
    write_pair p 9 (omega arith) g (to_le_bytes 8 d) 40 41 (omega (arith, length-to_le_bytes))
      (omega arith)
encode_body-action_body cancel_social_recovery p h e = refl

length-encode_body : (a : Action) (out : Bytes) → length (encode_body a out) ≡ length out
unfolding encode_body
length-encode_body (transfer_sol r l) out = omega (arith, length-write)
length-encode_body (rotate_ed25519_key k) out = omega (arith, length-write)
length-encode_body (rotate_falcon_key k) out = omega (arith, length-write)
length-encode_body (transfer_spl r l) out = omega (arith, length-write)
length-encode_body (change_policy b t) out = omega (arith, length-write)
length-encode_body (recover_account op k) out = omega (arith, length-write)
length-encode_body (set_recovery_config g d) out = omega (arith, length-write)
length-encode_body cancel_social_recovery out = refl

pub length-encode : (w : ExecuteIntentWire) → length (encode w) ≡ 49
unfolding encode
length-encode w = omega (arith, length-encode_body, length-write, length-zeros)

pub encode-fields :
    (w : ExecuteIntentWire)
    → IsAction w.action
    → encode w ≡ to_le_bytes 8 w.expiry_slot ++ (tag w.action ∷ action_body w.action)
unfolding encode
encode-fields w h =
    let p : Bytes = to_le_bytes 8 w.expiry_slot in
    let e = write_next (zeros 49) [] p 0 49 41 refl refl (omega (arith, length-to_le_bytes)) in
    ap (encode_body w.action) (
      write_next _ p (tag w.action ∷ []) 8 41 40 e (omega (arith, length-to_le_bytes))
        (omega arith))
    ∙ encode_body-action_body w.action (p ++ tag w.action ∷ []) h
        (omega (arith, length-append {0}, length-to_le_bytes))
    ∙ append_assoc p (tag w.action ∷ []) (action_body w.action)

-- The two encoders agree on the action: the tag and body on the wire are the last 41 bytes of the
-- preimage that is signed, whatever the action.
pub encode-canonical_preimage :
    (i : AuthorizationIntent)
    → IsIntent i
    → drop 8 (encode (from_intent i)) ≡ drop 131 (canonical_preimage i)
unfolding from_intent
encode-canonical_preimage i h =
    ap (drop 8) (encode-fields _ h.action_range)
    ∙ drop-append (to_le_bytes 8 i.expiry_slot) _ 8 (omega (arith, length-to_le_bytes))
    ∙ sym (
        drop-append (context_fields i) (tag i.action ∷ action_body i.action) 131
          (omega (arith, length-context_fields i h)))
    ∙ sym (ap (drop 131) (canonical_preimage-fields i h))
