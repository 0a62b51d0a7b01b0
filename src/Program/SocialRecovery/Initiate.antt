-- ===== src/Program/SocialRecovery/Initiate.antt =====
-- What a guardian's proposal requires and leaves in the recovery config.
use solana_hybrid_pq_account.Base.{
  ℕ, ◌+◌, ◌≡◌, ◌≢◌, ap, ◌∙◌, true, false, some, [], ◌∷◌, Bytes, length, arith, ==ᵇ_iff, inl, inr,
  Option-cases, ◌==ᵇ◌,
}
use solana_hybrid_pq_account.Base.Buffer.{slice, byte_at}
use solana_hybrid_pq_account.Base.Words.{IsU64}
use solana_hybrid_pq_account.Core.Error.{ok, Result-cases}
use solana_hybrid_pq_account.Core.Account.{nonce, owner_ed25519, recovery_enabled}
use solana_hybrid_pq_account.Core.Account.Slices.{from_slice-view}
use solana_hybrid_pq_account.Core.Recovery
use solana_hybrid_pq_account.Core.Recovery.{
  social_recover_preimage, guardian_ed25519, guardian_from_slice, has_pending, clear_pending,
  set_guardian_ed25519, set_delay_slots, delay_slots, pending_new_ed25519, pending_ready_slot,
  set_pending_new_ed25519, set_pending_ready_slot,
}
use solana_hybrid_pq_account.Core.Recovery.Setters.{set_pending_lem}
use solana_hybrid_pq_account.Program.Runtime.{Runtime, World, AccountInfo, set_content, checked_add}
use solana_hybrid_pq_account.Program.Runtime.Frames.{set_content_self, set_content_ne}
use solana_hybrid_pq_account.Program.Ed25519.{verify_ed25519_precompile}
use solana_hybrid_pq_account.Program.SocialRecovery.{
  verify_recovery_config_pda, process_initiate_social_recovery,
}

-- The checks of `RecoveryConfig::try_from_bytes`.
pub config_facts :
    (c cfg : Bytes)
    → Recovery.try_from_bytes c ≡ ok cfg
    → (cfg ≡ c) × (length c ≡ 128) × (byte_at 0 c ≡ 1)
unfolding Recovery.try_from_bytes
config_facts c cfg h = ground arith

pub guardian_from_slice-view :
    (c : Bytes) → length c ≡ 128 → byte_at 0 c ≡ 1 → guardian_from_slice c ≡ ok (guardian_ed25519 c)
unfolding guardian_from_slice guardian_ed25519
guardian_from_slice-view c size v = ground arith

module _ (rt : Runtime) (program_id : Bytes) (hybrid config sysvar : AccountInfo) where
  -- A proposal that the guardian signed and that waits for its slot.
  pub record Initiated (key : Bytes) (w w' : World) : Type 0 where
    pub slot : ℕ
    pub clock : rt.clock_slot ≡ some slot
    pub key_size : length key ≡ 32
    pub enabled : recovery_enabled (w hybrid.key).content ≡ true
    pub new_key : key ≢ owner_ed25519 (w hybrid.key).content
    pub guardian_signed :
        verify_ed25519_precompile rt sysvar (guardian_ed25519 (w config.key).content) (
          rt.sha256 (
            social_recover_preimage rt.chain_domain program_id hybrid.key key
              (nonce (w hybrid.key).content)))
        ≡ ok tt
    pub none_pending : has_pending (w config.key).content ≡ false
    pub pending_key : pending_new_ed25519 (w' config.key).content ≡ key
    pub ready :
        pending_ready_slot (w' config.key).content ≡ slot + delay_slots (w config.key).content
    pub rest_kept : slice 0 44 (w' config.key).content ≡ slice 0 44 (w config.key).content
    pub hybrid_kept : w' hybrid.key ≡ w hybrid.key
    pub others : (k : Bytes) → k ≢ config.key → w' k ≡ w k

  module _ (key : Bytes) (w w' : World)
      (h : process_initiate_social_recovery rt program_id (hybrid ∷ config ∷ sysvar ∷ []) key w
        ≡ ok w') where
    abbrev before : Bytes
    before = (w hybrid.key).content

    abbrev cfg : Bytes
    cfg = (w config.key).content

    sizes : (length key ≡ 32) × (length before ≡ 1120)
    unfolding process_initiate_social_recovery
    sizes = elim (Result-cases (verify_recovery_config_pda rt program_id hybrid.key config.key)) [
      | inr (x, refused) ↦ absurd (ground arith)
      | inl (bump, e) ↦ (ground arith, ground arith)
    ]

    config_sizes : (length cfg ≡ 128) × (byte_at 0 cfg ≡ 1)
    unfolding process_initiate_social_recovery guardian_from_slice
    config_sizes =
        elim (Result-cases (verify_recovery_config_pda rt program_id hybrid.key config.key)) [
          | inr (x, refused) ↦ absurd (ground arith)
          | inl (bump, e) ↦ ground (arith, from_slice-view before sizes.1)
        ]

    apart : hybrid.key ≢ config.key
    apart e = absurd (omega (arith, sizes.1, config_sizes.0, ap (λ k. length (w k).content) e))

    abbrev proposed : ℕ → Bytes
    proposed slot = set_pending_ready_slot slot (set_pending_new_ed25519 key cfg)

    -- The steps behind the derivation of the config's address, at a known slot.
    steps :
        (slot bump : ℕ)
        → rt.clock_slot ≡ some slot
        → verify_recovery_config_pda rt program_id hybrid.key config.key ≡ ok bump
        → (recovery_enabled before ≡ true)
          × ((key ==ᵇ owner_ed25519 before) ≡ false)
          × (verify_ed25519_precompile rt sysvar (guardian_ed25519 cfg) (
                rt.sha256 (
                  social_recover_preimage rt.chain_domain program_id hybrid.key key (nonce before)))
              ≡ ok tt)
          × (has_pending cfg ≡ false)
          × IsU64 (slot + delay_slots cfg)
          × (w' ≡ set_content config.key (proposed (slot + delay_slots cfg)) w)
    unfolding process_initiate_social_recovery Recovery.try_from_bytes checked_add
    steps slot bump clock e =
        elim (Result-cases (
          verify_ed25519_precompile rt sysvar (guardian_ed25519 cfg) (
            rt.sha256 (
              social_recover_preimage rt.chain_domain program_id hybrid.key key (nonce before))))) [
                | inr (x, refused) ↦ absurd (
                    ground (
                      arith,
                      from_slice-view before sizes.1,
                      guardian_from_slice-view cfg config_sizes.0 config_sizes.1,
                    ))
                | inl (tt, signed) ↦ ground (
                  arith,
                  from_slice-view before sizes.1,
                  guardian_from_slice-view cfg config_sizes.0 config_sizes.1,
                  config_sizes.0,
                  config_sizes.1,
                )
              ]

    assemble :
        (slot bump : ℕ)
        → rt.clock_slot ≡ some slot
        → verify_recovery_config_pda rt program_id hybrid.key config.key ≡ ok bump
        → Initiated key w w'
    assemble slot bump clock e =
        let (en, ne, sg, np, range, out) = steps slot bump clock e in
        let new = proposed (slot + delay_slots cfg) in
        let c : (w' config.key).content ≡ new =
          ap (λ v. (v config.key).content) out ∙ (set_content_self config.key w new).0 in
        let (k, r, s, l) =
          set_pending_lem cfg config_sizes.0 key (slot + delay_slots cfg) sizes.0 range in
        record {
          slot = slot;
          clock = clock;
          key_size = sizes.0;
          enabled = en;
          new_key = λ q. ground (arith, ==ᵇ_iff key (owner_ed25519 before), ne);
          guardian_signed = sg;
          none_pending = np;
          pending_key = ap pending_new_ed25519 c ∙ k;
          ready = ap pending_ready_slot c ∙ r;
          rest_kept = ap (slice 0 44) c ∙ s;
          hybrid_kept =
              ap (λ v. v hybrid.key) out ∙ set_content_ne config.key w new hybrid.key apart;
          others = λ j q. ap (λ v. v j) out ∙ set_content_ne config.key w new j q;
        }

    -- A proposal that is accepted carries the guardian's signature over the account's nonce, was
    -- not preceded by one that is still pending, and waits for the configured delay from the
    -- current slot; the guardian and the delay are kept, as are the hybrid account and all others.
    pub process_initiate_social_recovery-Initiated : Initiated key w w'
    unfolding process_initiate_social_recovery
    process_initiate_social_recovery-Initiated =
        elim (Result-cases (verify_recovery_config_pda rt program_id hybrid.key config.key)) [
          | inr (x, refused) ↦ absurd (ground arith)
          | inl (bump, e) ↦ elim (Option-cases rt.clock_slot) [
            | inl missing ↦
                absurd
                  (elim (Result-cases (
                    verify_ed25519_precompile rt sysvar (guardian_ed25519 cfg) (
                      rt.sha256 (
                        social_recover_preimage rt.chain_domain program_id hybrid.key key
                          (nonce before))))) [
                            | inr (x, refused) ↦ ground (
                              arith,
                              from_slice-view before sizes.1,
                              guardian_from_slice-view cfg config_sizes.0 config_sizes.1,
                            )
                            | inl (u, signed) ↦ ground (
                              arith,
                              from_slice-view before sizes.1,
                              guardian_from_slice-view cfg config_sizes.0 config_sizes.1,
                            )
                          ])
            | inr (slot, clock) ↦ assemble slot bump clock e
          ]
        ]
