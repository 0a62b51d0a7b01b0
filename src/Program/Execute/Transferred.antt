-- ===== src/Program/Execute/Transferred.antt =====
-- `Execute` with a signed transfer of lamports, from the instruction to the new balances.
use solana_hybrid_pq_account.Base.{
  ℕ, ◌+◌, ◌≤◌, ◌≡◌, ◌≢◌, ap, ◌∙◌, true, some, [], ◌∷◌, Bytes, length, arith, ==ᵇ_iff, inl, inr,
  take, drop,
}
use solana_hybrid_pq_account.Core.Error.{ok, Result-cases}
use solana_hybrid_pq_account.Core.Intent.{transfer_sol}
use solana_hybrid_pq_account.Core.Wire.{ExecuteIntentWire, decode}
use solana_hybrid_pq_account.Core.Account.{set_nonce, try_from_bytes}
use solana_hybrid_pq_account.Program.Runtime.{
  Runtime, World, AccountInfo, set_content, split_at_checked,
}
use solana_hybrid_pq_account.Program.Runtime.Frames.{set_content_self, set_content_ne}
use solana_hybrid_pq_account.Program.Authorize.{Authorization, authorize, split_wire_and_falcon}
use solana_hybrid_pq_account.Program.Authorize.Sound.{Authorized, authorize-Authorized}
use solana_hybrid_pq_account.Program.Execute.{
  bump_nonce, process_transfer_sol, process_action, process,
}
use solana_hybrid_pq_account.Program.Execute.Transfer.{Moved, move_lamports-Moved}

-- `bump_nonce` writes the nonce and nothing else.
pub bump_nonce_lem :
    (hybrid : AccountInfo) (n : ℕ) (w : World)
    → length (w hybrid.key).content ≡ 1120
    → bump_nonce hybrid n w ≡ ok (set_content hybrid.key (set_nonce n (w hybrid.key).content) w)
unfolding bump_nonce try_from_bytes
bump_nonce_lem hybrid n w size = ground arith

module _ (rt : Runtime) (program_id : Bytes) (hybrid recipient sysvar : AccountInfo) where
  -- An authorized transfer of lamports.
  pub record Transferred (wire : ExecuteIntentWire) (falcon_sig to : Bytes) (amount : ℕ)
      (w w' : World) : Type 0 where
    pub auth : Authorization
    pub authorized : Authorized rt program_id hybrid sysvar wire falcon_sig w auth
    pub writable : hybrid.is_writable ≡ true
    pub signed_recipient : recipient.key ≡ to
    pub distinct : recipient.key ≢ hybrid.key
    pub debit : (w' hybrid.key).lamports + amount ≡ (w hybrid.key).lamports
    pub credit : (w' recipient.key).lamports ≡ (w recipient.key).lamports + amount
    pub rent_kept :
        (minimum_balance : ℕ → ℕ)
        → rt.minimum_balance ≡ some minimum_balance
        → amount ≢ 0
        → minimum_balance 1120 ≤ (w' hybrid.key).lamports
    pub nonce_only : (w' hybrid.key).content ≡ set_nonce auth.next_nonce (w hybrid.key).content
    pub recipient_content : (w' recipient.key).content ≡ (w recipient.key).content
    pub others : (k : Bytes) → k ≢ hybrid.key → k ≢ recipient.key → w' k ≡ w k

  module _ (wire : ExecuteIntentWire) (falcon_sig to : Bytes) (amount : ℕ) (w w' : World) where
    combine :
        (auth : Authorization)
        → authorize rt program_id hybrid sysvar wire falcon_sig w ≡ ok auth
        → hybrid.is_writable ≡ true
        → recipient.key ≡ to
        → recipient.key ≢ hybrid.key
        → Moved rt hybrid recipient amount
            (set_content hybrid.key (set_nonce auth.next_nonce (w hybrid.key).content) w)
            w'
        → Transferred wire falcon_sig to amount w w'
    combine auth ha wr e ne m =
        let new = set_nonce auth.next_nonce (w hybrid.key).content in
        let (c, l, o) = set_content_self hybrid.key w new in
        let frame = set_content_ne hybrid.key w new in
        record {
          auth = auth;
          authorized = authorize-Authorized rt program_id hybrid sysvar wire falcon_sig w auth ha;
          writable = wr;
          signed_recipient = e;
          distinct = ne;
          debit = m.debit ∙ l;
          credit = m.credit ∙ ap (λ a. a.lamports + amount) (frame recipient.key ne);
          rent_kept = m.rent_kept;
          nonce_only = m.hybrid_content ∙ c;
          recipient_content = m.recipient_content ∙ ap (λ a. a.content) (frame recipient.key ne);
          others = λ k a b. m.others k a b ∙ frame k a;
        }

    pub process_transfer_sol-Transferred :
        process_transfer_sol rt program_id
            (hybrid ∷ recipient ∷ sysvar ∷ [])
            wire
            falcon_sig
            to
            amount
            w
          ≡ ok w'
        → Transferred wire falcon_sig to amount w w'
    unfolding process_transfer_sol
    process_transfer_sol-Transferred h =
        elim (Result-cases (authorize rt program_id hybrid sysvar wire falcon_sig w)) [
          | inr (x, refused) ↦ absurd (ground arith)
          | inl (auth, ha) ↦
              let a = authorize-Authorized rt program_id hybrid sysvar wire falcon_sig w auth ha in
              let e : recipient.key ≡ to = ground (arith, ==ᵇ_iff recipient.key to) in
              let ne : recipient.key ≢ hybrid.key =
                λ q. ground (arith, ==ᵇ_iff recipient.key hybrid.key) in
              combine auth ha (ground arith) e ne (
                move_lamports-Moved rt hybrid recipient amount _ w' ne
                  (ground (arith, bump_nonce_lem hybrid auth.next_nonce w a.size)))
        ]

  -- If `Execute` succeeds on a payload whose fragment asks for a transfer of lamports, then the
  -- intent was authorized, the writable account was debited and the signed recipient, which is
  -- another account, credited with exactly the signed amount; a non-zero amount leaves the rent
  -- minimum, the account's data changes in the nonce alone, and no third account changes.
  pub process-Transferred :
      (payload : Bytes) (wire : ExecuteIntentWire) (to : Bytes) (amount : ℕ) (w w' : World)
      → decode (take 49 payload) ≡ ok wire
      → wire.action ≡ transfer_sol to amount
      → process rt program_id (hybrid ∷ recipient ∷ sysvar ∷ []) payload w ≡ ok w'
      → Transferred wire (drop 49 payload) to amount w w'
  unfolding process process_action split_wire_and_falcon split_at_checked
  process-Transferred payload wire to amount w w' d e h =
      process_transfer_sol-Transferred wire (drop 49 payload) to amount w w' (ground arith)
