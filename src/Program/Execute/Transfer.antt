-- ===== src/Program/Execute/Transfer.antt =====
-- What a transfer of lamports does to the balances, the nonce and the other accounts.
use solana_hybrid_pq_account.Base.{
  ℕ, ◌+◌, ◌-◌, ◌≤◌, ◌≡◌, ◌≢◌, sym, some, Bytes, arith, inl, inr, Bool-cases, Option-cases, ◌==◌,
}
use solana_hybrid_pq_account.Core.Error.{ok}
use solana_hybrid_pq_account.Program.Runtime.{
  Runtime, World, AccountInfo, set_lamports, checked_add, checked_sub,
}
use solana_hybrid_pq_account.Program.Runtime.Frames.{set_lamports_self, set_lamports_ne}
use solana_hybrid_pq_account.Program.Execute.{move_lamports}

module _ (rt : Runtime) (hybrid recipient : AccountInfo) (amount : ℕ) (w w' : World) where
  -- The effect of a transfer between two accounts.
  pub record Moved : Type 0 where
    pub debit : (w' hybrid.key).lamports + amount ≡ (w hybrid.key).lamports
    pub credit : (w' recipient.key).lamports ≡ (w recipient.key).lamports + amount
    pub rent_kept :
        (minimum_balance : ℕ → ℕ)
        → rt.minimum_balance ≡ some minimum_balance
        → amount ≢ 0
        → minimum_balance 1120 ≤ (w' hybrid.key).lamports
    pub hybrid_content : (w' hybrid.key).content ≡ (w hybrid.key).content
    pub recipient_content : (w' recipient.key).content ≡ (w recipient.key).content
    pub others : (k : Bytes) → k ≢ hybrid.key → k ≢ recipient.key → w' k ≡ w k

  pub move_lamports-Moved :
      recipient.key ≢ hybrid.key → move_lamports rt hybrid recipient amount w ≡ ok w' → Moved
  unfolding move_lamports checked_add checked_sub
  move_lamports-Moved ne h =
      let remaining = (w hybrid.key).lamports - amount in
      let w₁ = set_lamports hybrid.key remaining w in
      let to = (w recipient.key).lamports + amount in
      elim (Bool-cases (amount == 0)) [
        | inl e ↦ record {
          debit = ground arith;
          credit = ground arith;
          rent_kept = λ m hm nz. absurd (ground arith);
          hybrid_content = ground arith;
          recipient_content = ground arith;
          others = λ k a b. ground arith;
        }
        | inr e ↦ elim (Option-cases rt.minimum_balance) [
          | inl missing ↦ absurd (ground arith)
          | inr (m, hm) ↦
              let r : w' ≡ set_lamports recipient.key to w₁ = ground arith in
              let (c₀, l₀, o₀) = set_lamports_self hybrid.key w remaining in
              let (c₁, l₁, o₁) = set_lamports_self recipient.key w₁ to in
              let keep = set_lamports_ne recipient.key w₁ to hybrid.key (λ q. ne (sym q)) in
              let keep' = set_lamports_ne hybrid.key w remaining recipient.key ne in
              record {
                debit = ground arith;
                credit = ground arith;
                rent_kept = λ m' hm' nz. ground arith;
                hybrid_content = ground arith;
                recipient_content = ground arith;
                others = λ k a b. ground (
                  arith,
                  set_lamports_ne recipient.key w₁ to k b,
                  set_lamports_ne hybrid.key w remaining k a,
                );
              }
        ]
      ]
