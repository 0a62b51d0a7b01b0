-- ===== src/Core/Account/Initialize.antt =====
-- `initialize` against the getters, and the setters of the two flags.
use Prim.Native.Nat.{bit_and, bit_or}
use mathlib.Core.Option.{get_or}
use solana_hybrid_pq_account.Base.{
  ℕ, ◌≡◌, sym, ap, ◌∙◌, Bool, true, false, Option, none, some, arith, Bytes, length,
}
use solana_hybrid_pq_account.Base.Buffer.{
  slice, byte_at, write, length-write, byte_at-slice, slice-write_self, slice-write_before,
}
use solana_hybrid_pq_account.Base.Layout.{zeros}
use solana_hybrid_pq_account.Base.Words.{
  IsU8, IsU64, to_le_bytes, length-to_le_bytes, from_le_bytes-to_le_bytes,
}
use solana_hybrid_pq_account.Core.Account.{
  flags, set_flags, recovery_enabled, set_recovery_enabled, falcon_required_above,
  set_falcon_required_above,
}
use solana_hybrid_pq_account.Core.Account.Flags.{recovery_flag, threshold_flag}
use solana_hybrid_pq_account.Core.Account.Field
use solana_hybrid_pq_account.Core.Account.Field.{field}
use solana_hybrid_pq_account.Core.Account.Setters.{flags-set_flags, field-set_flags}

-- The threshold's eight bytes under a write of the flags.
threshold_bytes : (b : ℕ) (a : Bytes) → slice 80 8 (set_flags b a) ≡ slice 80 8 a
unfolding field
threshold_bytes b a = field-set_flags Field.falcon_required_above a b (omega arith)

flags-write_threshold : (v a : Bytes) → flags (write 80 v a) ≡ flags a
unfolding flags byte_at
flags-write_threshold v a =
    byte_at-slice 3 (write 80 v a)
    ∙ ap (byte_at 0) (slice-write_before 3 1 80 v a (omega arith))
    ∙ sym (byte_at-slice 3 a)

module _ (a : Bytes) (fits : length a ≡ 1120) (byte : IsU8 (flags a)) where
  -- Enabling or disabling recovery is read back, and the threshold stays as it was.
  pub set_recovery_enabled_lem :
      (b : Bool)
      → (recovery_enabled (set_recovery_enabled b a) ≡ b)
        × (falcon_required_above (set_recovery_enabled b a) ≡ falcon_required_above a)
  unfolding recovery_enabled set_recovery_enabled falcon_required_above
  set_recovery_enabled_lem true = ground (
    arith,
    flags-set_flags a fits (bit_or (flags a) 1),
    threshold_bytes (bit_or (flags a) 1) a,
    recovery_flag (flags a) byte,
  )
  set_recovery_enabled_lem false = ground (
    arith,
    flags-set_flags a fits (bit_and (flags a) 254),
    threshold_bytes (bit_and (flags a) 254) a,
    recovery_flag (flags a) byte,
  )

  -- A threshold that is set or cleared is read back, and the recovery flag stays as it was.
  pub set_falcon_required_above_lem :
      (t : Option ℕ)
      → IsU64 (get_or t 0)
      → (falcon_required_above (set_falcon_required_above t a) ≡ t)
        × (recovery_enabled (set_falcon_required_above t a) ≡ recovery_enabled a)
  unfolding recovery_enabled set_falcon_required_above falcon_required_above
  set_falcon_required_above_lem none range =
      let b : Bytes = write 80 (zeros 8) a in
      ground (
        arith,
        flags-set_flags b (length-write 80 (zeros 8) a ∙ fits) (bit_and (flags b) 253),
        flags-write_threshold (zeros 8) a,
        threshold_flag (flags a) byte,
      )
  set_falcon_required_above_lem (some v) range =
      let b : Bytes = write 80 (to_le_bytes 8 v) a in
      ground (
        arith,
        flags-set_flags b (length-write 80 (to_le_bytes 8 v) a ∙ fits) (bit_or (flags b) 2),
        flags-write_threshold (to_le_bytes 8 v) a,
        threshold_bytes (bit_or (flags b) 2) b,
        slice-write_self 80 8 (to_le_bytes 8 v) a,
        length-to_le_bytes 8 v,
        from_le_bytes-to_le_bytes 8 v,
        threshold_flag (flags a) byte,
      )
