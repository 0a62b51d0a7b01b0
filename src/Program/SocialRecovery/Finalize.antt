-- ===== src/Program/SocialRecovery/Finalize.antt =====
-- What the permissionless finalization requires, and what it leaves in both accounts.
use solana_hybrid_pq_account.Base.{
  ℕ, ◌+◌, ◌≤◌, ◌≡◌, ◌≢◌, sym, ap, ◌∙◌, true, false, some, [], ◌∷◌, Bytes, length, arith, inl, inr,
  Option-cases,
}
use solana_hybrid_pq_account.Base.Buffer.{slice}
use solana_hybrid_pq_account.Base.Words.{IsU64}
use solana_hybrid_pq_account.Core.Error.{ok, Result-cases}
use solana_hybrid_pq_account.Core.Account
use solana_hybrid_pq_account.Core.Account.{
  set_nonce, nonce, owner_ed25519, set_owner_ed25519, recovery_enabled,
}
use solana_hybrid_pq_account.Core.Account.Slices.{recovery_enabled_from_slice, from_slice-view}
use solana_hybrid_pq_account.Core.Recovery
use solana_hybrid_pq_account.Core.Recovery.{
  social_recover_preimage, guardian_ed25519, guardian_from_slice, has_pending, clear_pending,
  set_guardian_ed25519, set_delay_slots, delay_slots, pending_new_ed25519, pending_ready_slot,
  set_pending_new_ed25519, set_pending_ready_slot,
}
use solana_hybrid_pq_account.Core.Recovery.Setters.{clear_pending_lem}
use solana_hybrid_pq_account.Program.Runtime.{Runtime, World, AccountInfo, set_content, checked_add}
use solana_hybrid_pq_account.Program.Runtime.Frames.{set_content_self, set_content_ne}
use solana_hybrid_pq_account.Program.SocialRecovery.{
  verify_recovery_config_pda, process_finalize_social_recovery,
}
use solana_hybrid_pq_account.Core.Account.Field.{Field, rank, field}
use solana_hybrid_pq_account.Core.Account.Setters.{
  field-set_nonce, field-set_owner_ed25519, length-set_owner_ed25519, nonce-set_nonce,
  owner_ed25519-set_owner_ed25519, owner_ed25519-field,
}
use solana_hybrid_pq_account.Base.Buffer.{length-slice}

module _ (rt : Runtime) (program_id : Bytes) (hybrid config : AccountInfo) where
  -- A finalized proposal.
  pub record Finalized (w w' : World) : Type 0 where
    pub slot : ℕ
    pub clock : rt.clock_slot ≡ some slot
    pub enabled : recovery_enabled (w hybrid.key).content ≡ true
    pub pending : has_pending (w config.key).content ≡ true
    pub ready : pending_ready_slot (w config.key).content ≤ slot
    pub new_owner :
        owner_ed25519 (w' hybrid.key).content ≡ pending_new_ed25519 (w config.key).content
    pub next_nonce : nonce (w' hybrid.key).content ≡ nonce (w hybrid.key).content + 1
    pub other_fields :
        (f : Field)
        → rank f ≢ 5
        → rank f ≢ 7
        → field f (w' hybrid.key).content ≡ field f (w hybrid.key).content
    pub cleared : has_pending (w' config.key).content ≡ false
    pub config_kept : slice 0 44 (w' config.key).content ≡ slice 0 44 (w config.key).content
    pub others : (k : Bytes) → k ≢ hybrid.key → k ≢ config.key → w' k ≡ w k

  module _ (w w' : World)
      (h : process_finalize_social_recovery rt program_id (hybrid ∷ config ∷ []) [] w ≡ ok w') where
    abbrev before : Bytes
    before = (w hybrid.key).content

    abbrev cfg : Bytes
    cfg = (w config.key).content

    abbrev cleared_world : World
    cleared_world = set_content config.key (clear_pending cfg) w

    size : length before ≡ 1120
    unfolding process_finalize_social_recovery recovery_enabled_from_slice
    size = elim (Result-cases (verify_recovery_config_pda rt program_id hybrid.key config.key)) [
      | inr (x, refused) ↦ absurd (ground arith)
      | inl (bump, e) ↦ ground arith
    ]

    config_size : length cfg ≡ 128
    unfolding process_finalize_social_recovery Recovery.try_from_bytes
    config_size =
        elim (Result-cases (verify_recovery_config_pda rt program_id hybrid.key config.key)) [
          | inr (x, refused) ↦ absurd (ground arith)
          | inl (bump, e) ↦ elim (Option-cases rt.clock_slot) [
            | inl missing ↦ absurd (ground (arith, from_slice-view before size))
            | inr (slot, clock) ↦ ground (arith, from_slice-view before size)
          ]
        ]

    apart : hybrid.key ≢ config.key
    apart e = absurd (omega (arith, size, config_size, ap (λ k. length (w k).content) e))

    abbrev recovered : Bytes
    recovered = set_nonce (nonce before + 1) (set_owner_ed25519 (pending_new_ed25519 cfg) before)

    untouched : cleared_world hybrid.key ≡ w hybrid.key
    untouched = set_content_ne config.key w (clear_pending cfg) hybrid.key apart

    steps :
        (slot bump : ℕ)
        → rt.clock_slot ≡ some slot
        → verify_recovery_config_pda rt program_id hybrid.key config.key ≡ ok bump
        → (recovery_enabled before ≡ true)
          × (has_pending cfg ≡ true)
          × (pending_ready_slot cfg ≤ slot)
          × IsU64 (nonce before + 1)
          × (w' ≡ set_content hybrid.key recovered cleared_world)
    unfolding process_finalize_social_recovery Recovery.try_from_bytes Account.try_from_bytes
        checked_add
    steps slot bump clock e =
        ground
          (arith, from_slice-view before size, config_size, size, ap (λ a. a.content) untouched)

    assemble :
        (slot bump : ℕ)
        → rt.clock_slot ≡ some slot
        → verify_recovery_config_pda rt program_id hybrid.key config.key ≡ ok bump
        → Finalized w w'
    unfolding pending_new_ed25519
    assemble slot bump clock e =
        let (en, pe, re, range, out) = steps slot bump clock e in
        let key = pending_new_ed25519 cfg in
        let key_size : length key ≡ 32 = length-slice 44 32 cfg (omega (arith, config_size)) in
        let owned = set_owner_ed25519 key before in
        let owned_size : length owned ≡ 1120 = length-set_owner_ed25519 key before ∙ size in
        let c : (w' hybrid.key).content ≡ recovered =
          ap (λ v. (v hybrid.key).content) out
          ∙ (set_content_self hybrid.key cleared_world recovered).0 in
        let d : (w' config.key).content ≡ clear_pending cfg =
          ap (λ v. (v config.key).content) out
          ∙ ap (λ a. a.content)
              (set_content_ne hybrid.key cleared_world recovered config.key (λ q. apart (sym q)))
          ∙ (set_content_self config.key w (clear_pending cfg)).0 in
        let (np, r, s, l) = clear_pending_lem cfg config_size in
        record {
          slot = slot;
          clock = clock;
          enabled = en;
          pending = pe;
          ready = re;
          new_owner =
              ap owner_ed25519 c
              ∙ owner_ed25519-field recovered
              ∙ field-set_nonce Field.owner_ed25519 owned (nonce before + 1) (omega arith)
              ∙ sym (owner_ed25519-field owned)
              ∙ owner_ed25519-set_owner_ed25519 before size key key_size;
          next_nonce = ap nonce c ∙ nonce-set_nonce owned owned_size (nonce before + 1) range;
          other_fields = λ f n₅ n₇.
              ap (field f) c
              ∙ field-set_nonce f owned (nonce before + 1) n₇
              ∙ field-set_owner_ed25519 f before key key_size n₅;
          cleared = ap has_pending d ∙ np;
          config_kept = ap (slice 0 44) d ∙ s;
          others = λ j a b.
              ap (λ v. v j) out
              ∙ set_content_ne hybrid.key cleared_world recovered j a
              ∙ set_content_ne config.key w (clear_pending cfg) j b;
        }

    -- A finalization that succeeds found a pending proposal whose slot has come, with recovery
    -- enabled: it makes the proposed key the owner, advances the nonce by one, clears the
    -- proposal, and changes no other field, nor any other account.
    pub process_finalize_social_recovery-Finalized : Finalized w w'
    unfolding process_finalize_social_recovery
    process_finalize_social_recovery-Finalized =
        elim (Result-cases (verify_recovery_config_pda rt program_id hybrid.key config.key)) [
          | inr (x, refused) ↦ absurd (ground arith)
          | inl (bump, e) ↦ elim (Option-cases rt.clock_slot) [
            | inl missing ↦ absurd (ground (arith, from_slice-view before size))
            | inr (slot, clock) ↦ assemble slot bump clock e
          ]
        ]
