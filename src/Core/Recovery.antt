-- ===== src/Core/Recovery.antt =====
-- core/src/recovery.rs: the 128-byte recovery config and the preimage that a guardian signs.
pub mod Setters
pub mod Guardian
use solana_hybrid_pq_account.Base.{
  ℕ, ◌+◌, Bool, not, ◌||◌, List, [], ◌∷◌, Bytes, length, ◌==◌, ◌==ᵇ◌, if◌then◌else◌,
}
use solana_hybrid_pq_account.Base.Buffer.{slice, byte_at, write}
use solana_hybrid_pq_account.Base.Layout.{zeros}
use solana_hybrid_pq_account.Base.Words.{to_le_bytes, from_le_bytes}
use solana_hybrid_pq_account.Core.Error.{
  Result, ok, ◌>>=◌, ◌>>◌, require, refuse, invalid_account_data,
}
use solana_hybrid_pq_account.Core.Canonical.{domain_tag, domain_tag_len}

-- "dualkey-rec"
abbrev pub recovery_pda_seed : Bytes
recovery_pda_seed = b'd' ∷ b'u' ∷ b'a' ∷ b'l' ∷ b'k' ∷ b'e' ∷ b'y' ∷ b'-' ∷ b'r' ∷ b'e' ∷ b'c' ∷ []

unfoldable pub recovery_pda_seeds : Bytes → List Bytes
recovery_pda_seeds hybrid_account = recovery_pda_seed ∷ hybrid_account ∷ []

abbrev pub recovery_config_len : ℕ
recovery_config_len = 128

abbrev pub recovery_config_version : ℕ
recovery_config_version = 1

-- "SOCIAL_RECOVER"
abbrev pub social_recover_tag : Bytes
social_recover_tag =
    b'S' ∷ b'O' ∷ b'C' ∷ b'I' ∷ b'A' ∷ b'L' ∷ b'_' ∷ b'R' ∷ b'E' ∷ b'C' ∷ b'O' ∷ b'V' ∷ b'E' ∷ b'R'
    ∷ []

abbrev pub social_recover_tag_len : ℕ
social_recover_tag_len = 14

abbrev pub social_recover_preimage_len : ℕ
social_recover_preimage_len = 169

unfoldable pub social_recover_preimage : Bytes → Bytes → Bytes → Bytes → ℕ → Bytes
social_recover_preimage chain_domain program_id account new_ed25519 nonce =
    let out₀ = zeros social_recover_preimage_len in
    let out₁ = write 0 (domain_tag_len ∷ []) out₀ in
    let out₂ = write 1 domain_tag out₁ in
    let i₀ = 1 + domain_tag_len in
    let out₃ = write i₀ (social_recover_tag_len ∷ []) out₂ in
    let i₁ = i₀ + 1 in
    let out₄ = write i₁ social_recover_tag out₃ in
    let i₂ = i₁ + social_recover_tag_len in
    let out₅ = write i₂ chain_domain out₄ in
    let i₃ = i₂ + 32 in
    let out₆ = write i₃ program_id out₅ in
    let i₄ = i₃ + 32 in
    let out₇ = write i₄ account out₆ in
    let i₅ = i₄ + 32 in
    let out₈ = write i₅ new_ed25519 out₇ in let i₆ = i₅ + 32 in write i₆ (to_le_bytes 8 nonce) out₈

-- `RecoveryConfig::try_from_bytes`
unfoldable pub try_from_bytes : Bytes → Result Bytes
try_from_bytes bytes = do
  require (length bytes == recovery_config_len) invalid_account_data
  require (byte_at 0 bytes == recovery_config_version) invalid_account_data
  ok bytes

-- `RecoveryConfig::initialize`
unfoldable pub initialize : Bytes → ℕ → Bytes → ℕ → Result Bytes
initialize buffer bump guardian delay_slots = do
  require (length buffer == recovery_config_len) invalid_account_data
  let c₀ = zeros (length buffer)
  let c₁ = write 0 (recovery_config_version ∷ []) c₀
  let c₂ = write 1 (bump ∷ []) c₁
  let c₃ = write 4 guardian c₂
  ok (write 36 (to_le_bytes 8 delay_slots) c₃)

unfoldable pub bump : Bytes → ℕ
bump c = byte_at 1 c

unfoldable pub guardian_ed25519 : Bytes → Bytes
guardian_ed25519 c = slice 4 32 c

unfoldable pub set_guardian_ed25519 : Bytes → Bytes → Bytes
set_guardian_ed25519 guardian c = write 4 guardian c

unfoldable pub delay_slots : Bytes → ℕ
delay_slots c = from_le_bytes (slice 36 8 c)

unfoldable pub set_delay_slots : ℕ → Bytes → Bytes
set_delay_slots delay c = write 36 (to_le_bytes 8 delay) c

unfoldable pub pending_new_ed25519 : Bytes → Bytes
pending_new_ed25519 c = slice 44 32 c

unfoldable pub set_pending_new_ed25519 : Bytes → Bytes → Bytes
set_pending_new_ed25519 key c = write 44 key c

unfoldable pub pending_ready_slot : Bytes → ℕ
pending_ready_slot c = from_le_bytes (slice 76 8 c)

unfoldable pub set_pending_ready_slot : ℕ → Bytes → Bytes
set_pending_ready_slot slot c = write 76 (to_le_bytes 8 slot) c

unfoldable pub has_pending : Bytes → Bool
has_pending c = not (pending_new_ed25519 c ==ᵇ zeros 32)

unfoldable pub clear_pending : Bytes → Bytes
clear_pending c = set_pending_ready_slot 0 (set_pending_new_ed25519 (zeros 32) c)

unfoldable pub guardian_from_slice : Bytes → Result Bytes
guardian_from_slice bytes = do
  refuse
      (not (length bytes == recovery_config_len)
        || not (byte_at 0 bytes == recovery_config_version))
      invalid_account_data
  ok (slice 4 32 bytes)
