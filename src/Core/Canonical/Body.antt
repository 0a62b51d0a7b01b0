-- ===== src/Core/Canonical/Body.antt =====
-- The 40-byte action body as a concatenation of fields, the form of docs/canonical-intent.md.
use solana_hybrid_pq_account.Base.{
  ℕ, ◌+◌, ◌≡◌, refl, ap, [], ◌∷◌, ◌++◌, ◌∙◌, arith, Bytes, length, length-append,
}
use solana_hybrid_pq_account.Base.Buffer.{write}
use mathlib.Core.List.{append_assoc, append-nil}
use solana_hybrid_pq_account.Base.Layout.{zeros, length-zeros, zeros-zero, write_next, write_skip}
use solana_hybrid_pq_account.Base.Words.{to_le_bytes, length-to_le_bytes}
use solana_hybrid_pq_account.Core.RecoveryOp.{as_u8}
use solana_hybrid_pq_account.Core.Intent.{
  Action, transfer_sol, rotate_ed25519_key, rotate_falcon_key, transfer_spl, change_policy,
  recover_account, set_recovery_config, cancel_social_recovery, IsAction,
}

unfoldable pub action_body : Action → Bytes
action_body (transfer_sol recipient lamports) = recipient ++ to_le_bytes 8 lamports
action_body (rotate_ed25519_key new_pubkey) = new_pubkey ++ zeros 8
action_body (rotate_falcon_key new_pubkey_hash) = new_pubkey_hash ++ zeros 8
action_body (transfer_spl destination amount) = destination ++ to_le_bytes 8 amount
action_body (change_policy new_policy threshold) =
    new_policy ∷ (zeros 7 ++ to_le_bytes 8 threshold ++ zeros 24)
action_body (recover_account op new_ed25519) = as_u8 op ∷ (zeros 7 ++ new_ed25519)
action_body (set_recovery_config guardian delay) = guardian ++ to_le_bytes 8 delay
action_body cancel_social_recovery = zeros 40

pub length-action_body : (a : Action) → IsAction a → length (action_body a) ≡ 40
unfolding action_body
length-action_body (transfer_sol recipient lamports) h =
    omega (arith, length-append {0}, length-to_le_bytes)
length-action_body (rotate_ed25519_key key) h = omega (arith, length-append {0}, length-zeros)
length-action_body (rotate_falcon_key key) h = omega (arith, length-append {0}, length-zeros)
length-action_body (transfer_spl destination amount) h =
    omega (arith, length-append {0}, length-to_le_bytes)
length-action_body (change_policy p t) h =
    omega (arith, length-append {0}, length-to_le_bytes, length-zeros)
length-action_body (recover_account op key) h = omega (arith, length-append {0}, length-zeros)
length-action_body (set_recovery_config guardian delay) h =
    omega (arith, length-append {0}, length-to_le_bytes)
length-action_body cancel_social_recovery h = length-zeros 40

-- The three shapes in which a body is written behind a filled prefix `p`.
module _ (p : Bytes) (o : ℕ) (at_end : o ≡ length p) where
  pub write_key :
      (key : Bytes) (n m : ℕ)
      → n ≡ length key + m
      → write o key (p ++ zeros n) ≡ p ++ (key ++ zeros m)
  write_key key n m e = write_next _ p key o n m refl at_end e ∙ append_assoc p key (zeros m)

  pub write_pair :
      (key w : Bytes) (n o' : ℕ)
      → n ≡ length key + length w
      → o' ≡ o + length key
      → write o' w (write o key (p ++ zeros n)) ≡ p ++ (key ++ w)
  write_pair key w n o' e e' =
      write_next _ (p ++ key) w o' (length w) 0 (write_next _ p key o n (length w) refl at_end e)
        (omega (arith, length-append p key)) (omega arith)
      ∙ ap (λ l. p ++ key ++ w ++ l) zeros-zero
      ∙ append-nil (p ++ key ++ w)
      ∙ append_assoc p key w

  pub write_gap :
      (b : ℕ) (w : Bytes) (n m : ℕ)
      → n ≡ 8 + length w + m
      → write (o + 8) w (write o (b ∷ []) (p ++ zeros n)) ≡ p ++ (b ∷ (zeros 7 ++ w ++ zeros m))
  write_gap b w n m e =
      write_skip _ (p ++ (b ∷ [])) w (o + 8) 7 (7 + length w + m) m
        (write_next _ p (b ∷ []) o n (7 + length w + m) refl at_end (omega arith))
        (omega (arith, length-append p (b ∷ []))) (omega arith)
      ∙ simp append_assoc
