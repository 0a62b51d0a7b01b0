-- ===== src/Program/SocialRecovery/Trace.antt =====
-- Sequences of instructions on one hybrid account and its recovery config, at any slots.
use mathlib.Core.Path.{subst}
use solana_hybrid_pq_account.Base.{
  ℕ, ◌+◌, ◌≤◌, ◌≡◌, ◌≢◌, ◌⊎◌, inl, inr, sym, ap, ◌∙◌, true, false, some, [], ◌∷◌, Bytes, arith,
  take,
}
use solana_hybrid_pq_account.Base.Words.{IsBytes}
use solana_hybrid_pq_account.Core.Error.{ok}
use solana_hybrid_pq_account.Core.RecoveryOp.{rotate_ed25519}
use solana_hybrid_pq_account.Core.Intent.{rotate_ed25519_key, recover_account, set_recovery_config}
use solana_hybrid_pq_account.Core.Wire.{ExecuteIntentWire, decode}
use solana_hybrid_pq_account.Core.Account.{owner_ed25519}
use solana_hybrid_pq_account.Core.Recovery.{
  has_pending, delay_slots, pending_new_ed25519, pending_ready_slot,
}
use solana_hybrid_pq_account.Program.Runtime.{Runtime, World, AccountInfo, data_is_empty}
use solana_hybrid_pq_account.Program.Rotate.{process_rotate_ed25519}
use solana_hybrid_pq_account.Program.Rotate.Effect.{process_rotate_ed25519-OwnerRotated}
use solana_hybrid_pq_account.Program.Recover
use solana_hybrid_pq_account.Program.Recover.Effect.{process-OwnerRotated}
use solana_hybrid_pq_account.Program.SocialRecovery.{
  process_initiate_social_recovery, process_finalize_social_recovery,
  process_cancel_social_recovery, process_set_recovery_config,
}
use solana_hybrid_pq_account.Program.SocialRecovery.Initiate.{
  process_initiate_social_recovery-Initiated,
}
use solana_hybrid_pq_account.Program.SocialRecovery.Finalize.{
  process_finalize_social_recovery-Finalized,
}
use solana_hybrid_pq_account.Program.SocialRecovery.Cancel.{
  process_cancel_social_recovery-Reconfigured,
}
use solana_hybrid_pq_account.Program.SocialRecovery.Replace.{
  process_set_recovery_config-Reconfigured,
}

true_not_false : true ≢ false
true_not_false e = cc

module _ (program_id : Bytes) (hybrid config : AccountInfo) where
  -- One successful instruction on a config account in use, or anything that keeps its data.
  pub data Step : World → World → Type 0 where
    initiate :
        (rt : Runtime) (sysvar : AccountInfo) (key : Bytes) (u v : World)
        → process_initiate_social_recovery rt program_id (hybrid ∷ config ∷ sysvar ∷ []) key u
          ≡ ok v
        → Step u v
    finalize :
        (rt : Runtime) (u v : World)
        → process_finalize_social_recovery rt program_id (hybrid ∷ config ∷ []) [] u ≡ ok v
        → Step u v
    cancel :
        (rt : Runtime) (sysvar : AccountInfo) (payload : Bytes) (wire : ExecuteIntentWire)
        (u v : World)
        → decode (take 49 payload) ≡ ok wire
        → process_cancel_social_recovery rt program_id (hybrid ∷ config ∷ sysvar ∷ []) payload u
          ≡ ok v
        → Step u v
    replace :
        (rt : Runtime) (sysvar payer system_program : AccountInfo) (payload guardian : Bytes)
        (delay : ℕ) (wire : ExecuteIntentWire) (u v : World)
        → IsBytes payload
        → decode (take 49 payload) ≡ ok wire
        → wire.action ≡ set_recovery_config guardian delay
        → data_is_empty (u config.key) ≡ false
        → process_set_recovery_config rt program_id
            (hybrid ∷ config ∷ payer ∷ system_program ∷ sysvar ∷ [])
            payload
            u
          ≡ ok v
        → Step u v
    rotate :
        (rt : Runtime) (sysvar : AccountInfo) (payload key : Bytes) (wire : ExecuteIntentWire)
        (u v : World)
        → IsBytes payload
        → decode (take 49 payload) ≡ ok wire
        → wire.action ≡ rotate_ed25519_key key
        → data_is_empty (u config.key) ≡ false
        → process_rotate_ed25519 rt program_id (hybrid ∷ config ∷ sysvar ∷ []) payload u ≡ ok v
        → Step u v
    recover :
        (rt : Runtime) (sysvar : AccountInfo) (payload key : Bytes) (wire : ExecuteIntentWire)
        (u v : World)
        → IsBytes payload
        → decode (take 49 payload) ≡ ok wire
        → wire.action ≡ recover_account rotate_ed25519 key
        → data_is_empty (u config.key) ≡ false
        → Recover.process rt program_id (hybrid ∷ config ∷ sysvar ∷ []) payload u ≡ ok v
        → Step u v
    other : (u v : World) → (v config.key).content ≡ (u config.key).content → Step u v

  pub data Trace : World → World → Type 0 where
    done : (w : World) → Trace w w
    next : (w u v : World) → Trace w u → Step u v → Trace w v

  -- The step is the proposal of a key that becomes ready at a slot: the slot of the step and the
  -- delay of the config at that time.
  abbrev pub Proposes : (u v : World) → Step u v → Bytes → ℕ → Type 0
  Proposes _ _ (initiate rt sysvar key u v h) k ready =
      (key ≡ k)
      × (slot : ℕ) × (rt.clock_slot ≡ some slot)
      × (ready ≡ slot + delay_slots (u config.key).content)
  Proposes _ _ _ k ready = ⊥

  abbrev pub ProposedIn : (w v : World) → Trace w v → Bytes → ℕ → Type 0
  ProposedIn _ _ (done w) k ready = ⊥
  ProposedIn _ _ (next w u v t s) k ready = ProposedIn w u t k ready ⊎ Proposes u v s k ready

  abbrev pending_key : World → Bytes
  pending_key w = pending_new_ed25519 (w config.key).content

  abbrev ready_slot : World → ℕ
  ready_slot w = pending_ready_slot (w config.key).content

  -- What is pending after a step was proposed by it, or was pending before.
  Step-pending :
      (u v : World) (s : Step u v)
      → has_pending (v config.key).content ≡ true
      → Proposes u v s (pending_key v) (ready_slot v)
        ⊎ ((has_pending (u config.key).content ≡ true)
            × (pending_key v ≡ pending_key u)
            × (ready_slot v ≡ ready_slot u))
  Step-pending _ _ (initiate rt sysvar key u v h) p =
      let i =
        process_initiate_social_recovery-Initiated rt program_id hybrid config sysvar key u v h in
      inl (sym i.pending_key, i.slot, i.clock, i.ready)
  Step-pending _ _ (finalize rt u v h) p =
      let f = process_finalize_social_recovery-Finalized rt program_id hybrid config u v h in
      absurd (true_not_false (sym p ∙ f.cleared))
  Step-pending _ _ (cancel rt sysvar payload wire u v d h) p =
      let (act, was, r) =
        process_cancel_social_recovery-Reconfigured rt program_id hybrid config sysvar payload wire
          u v d h in
      absurd (true_not_false (sym p ∙ ap has_pending r.config_content ∙ r.none_or_cleared))
  Step-pending _ _
        (replace rt sysvar payer system_program payload guardian delay wire u v b d act used h) p =
      let (sg, nz, pos, np, r) =
        process_set_recovery_config-Reconfigured rt program_id hybrid config sysvar payer
          system_program payload guardian delay wire u v b d act used h in
      absurd (true_not_false (sym p ∙ ap has_pending r.config_content ∙ r.none_or_cleared))
  Step-pending _ _ (rotate rt sysvar payload key wire u v b d act used h) p =
      let (ne, r) =
        process_rotate_ed25519-OwnerRotated rt program_id hybrid config sysvar payload key wire u v
          b d act h in
      absurd (true_not_false (sym p ∙ r.none_pending used))
  Step-pending _ _ (recover rt sysvar payload key wire u v b d act used h) p =
      let (en, sg, ne, nz, r) =
        process-OwnerRotated rt program_id hybrid config sysvar payload key wire u v b d act h in
      absurd (true_not_false (sym p ∙ r.none_pending used))
  Step-pending _ _ (other u v same) p =
      inr (sym (ap has_pending same) ∙ p, ap pending_new_ed25519 same, ap pending_ready_slot same)

  -- What is pending after a trace was pending before it, or was proposed in it.
  Trace-pending :
      (w v : World) (t : Trace w v)
      → has_pending (v config.key).content ≡ true
      → ProposedIn w v t (pending_key v) (ready_slot v)
        ⊎ (has_pending (w config.key).content ≡ true)
  Trace-pending _ _ (done w) p = inr p
  Trace-pending _ _ (next w u v t s) p = elim (Step-pending u v s p) [
    | inl proposed ↦ inl (inr proposed)
    | inr (q, k, r) ↦ elim (Trace-pending w u t q) [
      | inl earlier ↦ inl (
          inl (
            subst (λ x. ProposedIn w u t x (ready_slot v)) (sym k)
              (subst (λ x. ProposedIn w u t (pending_key u) x) (sym r) earlier)))
      | inr first ↦ inr first
    ]
  ]

  -- From a config with nothing pending, through any sequence of instructions at any slots: a
  -- finalization makes a key the owner only if a guardian's instruction of that sequence proposed
  -- that key, at a slot that lies back by at least the delay that was configured then.
  pub finalized-ProposedIn :
      (rt : Runtime) (w v v' : World) (t : Trace w v) (slot : ℕ)
      → has_pending (w config.key).content ≡ false
      → process_finalize_social_recovery rt program_id (hybrid ∷ config ∷ []) [] v ≡ ok v'
      → rt.clock_slot ≡ some slot
      → (ready : ℕ) × ProposedIn w v t (owner_ed25519 (v' hybrid.key).content) ready
        × (ready ≤ slot)
  finalized-ProposedIn rt w v v' t slot none_before h clock =
      let f = process_finalize_social_recovery-Finalized rt program_id hybrid config v v' h in
      elim (Trace-pending w v t f.pending) [
        | inl proposed ↦ (
          ready_slot v,
          subst (λ x. ProposedIn w v t x (ready_slot v)) (sym f.new_owner) proposed,
          ground (arith, f.clock, f.ready),
        )
        | inr before ↦ absurd (true_not_false (sym before ∙ none_before))
      ]
