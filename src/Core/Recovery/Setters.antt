-- ===== src/Core/Recovery/Setters.antt =====
-- The setters of the recovery config against its getters.
use solana_hybrid_pq_account.Base.{ℕ, ◌≡◌, sym, ap, ◌∙◌, false, arith, Bytes, length, ==ᵇ_refl}
use solana_hybrid_pq_account.Base.Buffer.{
  slice, write, length-write, slice-write_self, slice-write_before, slice-write_after,
}
use solana_hybrid_pq_account.Base.Layout.{zeros, length-zeros}
use solana_hybrid_pq_account.Base.Words.{
  IsU64, to_le_bytes, from_le_bytes, length-to_le_bytes, from_le_bytes-to_le_bytes,
}
use solana_hybrid_pq_account.Core.Recovery.{
  guardian_ed25519, delay_slots, set_guardian_ed25519, set_delay_slots, pending_new_ed25519,
  set_pending_new_ed25519, pending_ready_slot, set_pending_ready_slot, has_pending, clear_pending,
}

module _ (c : Bytes) (fits : length c ≡ 128) where
  -- A recovery that is put on hold is read back with its slot, is pending if its key is not the
  -- zero key, and leaves the guardian, the delay and the version alone.
  pub set_pending_lem :
      (key : Bytes) (slot : ℕ)
      → length key ≡ 32
      → IsU64 slot
      → (pending_new_ed25519 (set_pending_ready_slot slot (set_pending_new_ed25519 key c)) ≡ key)
        × (pending_ready_slot (set_pending_ready_slot slot (set_pending_new_ed25519 key c)) ≡ slot)
        × (slice 0 44 (set_pending_ready_slot slot (set_pending_new_ed25519 key c)) ≡ slice 0 44 c)
        × (length (set_pending_ready_slot slot (set_pending_new_ed25519 key c)) ≡ 128)
  unfolding pending_new_ed25519 pending_ready_slot set_pending_ready_slot set_pending_new_ed25519
  set_pending_lem key slot hk hs =
      let c₁ = write 44 key c in
      let l₁ : length c₁ ≡ 128 = length-write 44 key c ∙ fits in
      let w = to_le_bytes 8 slot in
      let lw : length w ≡ 8 = length-to_le_bytes 8 slot in
      (
        slice-write_before 44 32 76 w c₁ (omega arith)
            ∙ slice-write_self 44 32 key c (sym hk) (omega arith),
        ap from_le_bytes (slice-write_self 76 8 w c₁ (sym lw) (omega arith))
            ∙ from_le_bytes-to_le_bytes 8 slot hs,
        slice-write_before 0 44 76 w c₁ (omega arith)
            ∙ slice-write_before 0 44 44 key c (omega arith),
        length-write 76 w c₁ ∙ l₁,
      )

  -- After `clear_pending` nothing is pending, and the rest of the config stays.
  pub clear_pending_lem :
      (has_pending (clear_pending c) ≡ false)
      × (pending_ready_slot (clear_pending c) ≡ 0)
      × (slice 0 44 (clear_pending c) ≡ slice 0 44 c)
      × (length (clear_pending c) ≡ 128)
  unfolding has_pending clear_pending
  clear_pending_lem =
      let (k, s, r, l) = set_pending_lem (zeros 32) 0 (length-zeros 32) (omega arith) in
      (rw (k, ==ᵇ_refl), s, r, l)

  -- A new guardian and delay are read back, and what is pending stays.
  pub set_guardian_lem :
      (guardian : Bytes) (delay : ℕ)
      → length guardian ≡ 32
      → IsU64 delay
      → (guardian_ed25519 (set_delay_slots delay (set_guardian_ed25519 guardian c)) ≡ guardian)
        × (delay_slots (set_delay_slots delay (set_guardian_ed25519 guardian c)) ≡ delay)
        × (slice 44 84 (set_delay_slots delay (set_guardian_ed25519 guardian c)) ≡ slice 44 84 c)
        × (slice 0 4 (set_delay_slots delay (set_guardian_ed25519 guardian c)) ≡ slice 0 4 c)
        × (length (set_delay_slots delay (set_guardian_ed25519 guardian c)) ≡ 128)
  unfolding guardian_ed25519 delay_slots set_delay_slots set_guardian_ed25519
  set_guardian_lem key slot hk hs =
      let c₁ = write 4 key c in
      let l₁ : length c₁ ≡ 128 = length-write 4 key c ∙ fits in
      let w = to_le_bytes 8 slot in
      let lw : length w ≡ 8 = length-to_le_bytes 8 slot in
      (
        slice-write_before 4 32 36 w c₁ (omega arith)
            ∙ slice-write_self 4 32 key c (sym hk) (omega arith),
        ap from_le_bytes (slice-write_self 36 8 w c₁ (sym lw) (omega arith))
            ∙ from_le_bytes-to_le_bytes 8 slot hs,
        slice-write_after 44 84 36 w c₁ (omega arith)
            ∙ slice-write_after 44 84 4 key c (omega arith),
        slice-write_before 0 4 36 w c₁ (omega arith) ∙ slice-write_before 0 4 4 key c (omega arith),
        length-write 36 w c₁ ∙ l₁,
      )
