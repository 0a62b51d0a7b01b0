-- ===== src/Program/SocialRecovery/Reconfigure.antt =====
-- What an authorized change of the recovery config leaves in both accounts.
use solana_hybrid_pq_account.Base.{ℕ, ◌≡◌, ◌≢◌, sym, ap, ◌∙◌, false, Bytes, length, arith}
use solana_hybrid_pq_account.Core.Error.{ok}
use solana_hybrid_pq_account.Core.Wire.{ExecuteIntentWire}
use solana_hybrid_pq_account.Core.Account
use solana_hybrid_pq_account.Core.Account.{
  set_nonce, nonce, owner_ed25519, set_owner_ed25519, recovery_enabled,
}
use solana_hybrid_pq_account.Core.Recovery.{has_pending}
use solana_hybrid_pq_account.Program.Runtime.{Runtime, World, AccountInfo, set_content}
use solana_hybrid_pq_account.Program.Runtime.Frames.{set_content_self, set_content_ne}
use solana_hybrid_pq_account.Program.Authorize.{Authorization, authorize}
use solana_hybrid_pq_account.Program.Authorize.Sound.{Authorized, authorize-Authorized}
use solana_hybrid_pq_account.Program.SocialRecovery.{store_nonce}

-- `store_nonce` writes the nonce and nothing else.
pub store_nonce_lem :
    (hybrid : AccountInfo) (n : ℕ) (w : World)
    → length (w hybrid.key).content ≡ 1120
    → store_nonce hybrid n w ≡ ok (set_content hybrid.key (set_nonce n (w hybrid.key).content) w)
unfolding store_nonce Account.try_from_bytes
store_nonce_lem hybrid n w size = ground arith

module _ (rt : Runtime) (program_id : Bytes) (hybrid config sysvar : AccountInfo) where
  -- What `Set` and `Cancel` have in common: an authorized instruction that changes the nonce of
  -- the hybrid account, and the data of the config account from `cfg` to `cfg'`.
  pub record Reconfigured (wire : ExecuteIntentWire) (falcon_sig cfg' : Bytes) (w w' : World)
      : Type 0 where
    pub auth : Authorization
    pub authorized : Authorized rt program_id hybrid sysvar wire falcon_sig w auth
    pub none_or_cleared : has_pending cfg' ≡ false
    pub config_content : (w' config.key).content ≡ cfg'
    pub nonce_only : (w' hybrid.key).content ≡ set_nonce auth.next_nonce (w hybrid.key).content
    pub others : (k : Bytes) → k ≢ hybrid.key → k ≢ config.key → w' k ≡ w k

  module _ (wire : ExecuteIntentWire) (falcon_sig cfg' : Bytes) (w w' : World) where
    pub reconfigure :
        (auth : Authorization)
        → authorize rt program_id hybrid sysvar wire falcon_sig w ≡ ok auth
        → hybrid.key ≢ config.key
        → has_pending cfg' ≡ false
        → store_nonce hybrid auth.next_nonce (set_content config.key cfg' w) ≡ ok w'
        → Reconfigured wire falcon_sig cfg' w w'
    reconfigure auth ha apart np h =
        let w₁ = set_content config.key cfg' w in
        let a = authorize-Authorized rt program_id hybrid sysvar wire falcon_sig w auth ha in
        let keep = set_content_ne config.key w cfg' hybrid.key apart in
        let before = (w hybrid.key).content in
        let new = set_nonce auth.next_nonce (w₁ hybrid.key).content in
        let same : (w₁ hybrid.key).content ≡ before = ap (λ x. x.content) keep in
        let out : w' ≡ set_content hybrid.key new w₁ =
          ground (arith, store_nonce_lem hybrid auth.next_nonce w₁ (ap length same ∙ a.size)) in
        record {
          auth = auth;
          authorized = a;
          none_or_cleared = np;
          config_content =
              ap (λ v. (v config.key).content) out
              ∙ ap (λ x. x.content)
                  (set_content_ne hybrid.key w₁ new config.key (λ q. apart (sym q)))
              ∙ (set_content_self config.key w cfg').0;
          nonce_only =
              ap (λ v. (v hybrid.key).content) out
              ∙ (set_content_self hybrid.key w₁ new).0
              ∙ ap (set_nonce auth.next_nonce) same;
          others = λ j p q.
              ap (λ v. v j) out
              ∙ set_content_ne hybrid.key w₁ new j p
              ∙ set_content_ne config.key w cfg' j q;
        }
