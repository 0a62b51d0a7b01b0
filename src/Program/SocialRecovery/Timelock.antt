-- ===== src/Program/SocialRecovery/Timelock.antt =====
-- A finalization before the proposal's slot.
use solana_hybrid_pq_account.Base.{ℕ, ◌<◌, ◌≡◌, true, some, [], ◌∷◌, Bytes, length, arith, ==ᵇ_iff}
use solana_hybrid_pq_account.Core.Error.{ok, err, intent_expired}
use solana_hybrid_pq_account.Core.Account.{recovery_enabled}
use solana_hybrid_pq_account.Core.Account.Slices.{from_slice-view}
use solana_hybrid_pq_account.Core.Recovery
use solana_hybrid_pq_account.Core.Recovery.{
  social_recover_preimage, guardian_ed25519, guardian_from_slice, has_pending, clear_pending,
  set_guardian_ed25519, set_delay_slots, delay_slots, pending_new_ed25519, pending_ready_slot,
  set_pending_new_ed25519, set_pending_ready_slot,
}
use solana_hybrid_pq_account.Program.Runtime.{Runtime, World, AccountInfo}
use solana_hybrid_pq_account.Program.SocialRecovery.{
  verify_recovery_config_pda, process_finalize_social_recovery,
}

-- Before its slot, and while recovery is enabled and everything else is in order, a pending
-- proposal is refused with the error for intents, and nothing changes.
pub process_finalize_social_recovery-early :
    (rt : Runtime) (program_id : Bytes) (hybrid config : AccountInfo) (w : World) (bump slot : ℕ)
    → hybrid.is_writable ≡ true
    → config.is_writable ≡ true
    → (w hybrid.key).owner ≡ program_id
    → (w config.key).owner ≡ program_id
    → verify_recovery_config_pda rt program_id hybrid.key config.key ≡ ok bump
    → length (w hybrid.key).content ≡ 1120
    → recovery_enabled (w hybrid.key).content ≡ true
    → Recovery.try_from_bytes (w config.key).content ≡ ok (w config.key).content
    → has_pending (w config.key).content ≡ true
    → rt.clock_slot ≡ some slot
    → slot < pending_ready_slot (w config.key).content
    → process_finalize_social_recovery rt program_id (hybrid ∷ config ∷ []) [] w
      ≡ err intent_expired
unfolding process_finalize_social_recovery
process_finalize_social_recovery-early rt program_id hybrid config w bump slot wh wc oh oc pda size
      en cfg pe clock early =
    ground (
      arith,
      from_slice-view (w hybrid.key).content size,
      ==ᵇ_iff (w hybrid.key).owner program_id,
      ==ᵇ_iff (w config.key).owner program_id,
    )
