-- ===== src/Program/Runtime/Frames.antt =====
-- What a write to one account changes: that account's data or lamports, and no other account.
use solana_hybrid_pq_account.Base.{ℕ, Bytes, ◌≡◌, ◌≢◌, ap}
use solana_hybrid_pq_account.Program.Runtime.{
  World, Account, update_self, update_ne, set_content, set_lamports,
}

module _ (k : Bytes) (w : World) where
  pub set_content_self :
      (bytes : Bytes)
      → (((set_content k bytes w) k).content ≡ bytes)
        × (((set_content k bytes w) k).lamports ≡ (w k).lamports)
        × (((set_content k bytes w) k).owner ≡ (w k).owner)
  unfolding set_content
  set_content_self bytes =
      let a : Account = record {
        lamports = (w k).lamports;
        owner = (w k).owner;
        content = bytes;
      } in
      let e = update_self w k a in
      (ap (λ x. x.content) e, ap (λ x. x.lamports) e, ap (λ x. x.owner) e)

  pub set_content_ne : (bytes j : Bytes) → j ≢ k → set_content k bytes w j ≡ w j
  unfolding set_content
  set_content_ne bytes j ne = update_ne w k j _ ne

  pub set_lamports_self :
      (amount : ℕ)
      → (((set_lamports k amount w) k).content ≡ (w k).content)
        × (((set_lamports k amount w) k).lamports ≡ amount)
        × (((set_lamports k amount w) k).owner ≡ (w k).owner)
  unfolding set_lamports
  set_lamports_self amount =
      let a : Account = record {
        lamports = amount;
        owner = (w k).owner;
        content = (w k).content;
      } in
      let e = update_self w k a in
      (ap (λ x. x.content) e, ap (λ x. x.lamports) e, ap (λ x. x.owner) e)

  pub set_lamports_ne : (amount : ℕ) (j : Bytes) → j ≢ k → set_lamports k amount w j ≡ w j
  unfolding set_lamports
  set_lamports_ne amount j ne = update_ne w k j _ ne
