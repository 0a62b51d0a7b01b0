-- ===== src/Program/Ed25519.antt =====
-- program/src/auth/ed25519.rs: introspection of the Ed25519 precompile instruction.
pub mod Sound
use solana_hybrid_pq_account.Base.{ℕ, Bool, not, ◌||◌, [], ◌∷◌, Bytes, length, ltb, ◌==◌, ◌==ᵇ◌}
use solana_hybrid_pq_account.Base.Buffer.{slice, byte_at}
use solana_hybrid_pq_account.Base.Words.{from_le_bytes}
use solana_hybrid_pq_account.Core.Error.{
  Result, ok, err, ◌>>=◌, ◌>>◌, require, refuse, ok_or, invalid_program_account,
  malformed_ed25519_precompile, invalid_ed25519,
}
use solana_hybrid_pq_account.Program.Runtime.{Runtime, AccountInfo, Instruction, get_range}

abbrev pub ed25519_data_start : ℕ
ed25519_data_start = 16

abbrev pub u16_max : ℕ
u16_max = 65535

unfoldable pub read_u16 : Bytes → ℕ → Result ℕ
unfolding get_range
read_u16 bytes at = do
  range ← ok_or (get_range at 2 bytes) malformed_ed25519_precompile
  ok (from_le_bytes range)

unfoldable pub slice_at : Bytes → ℕ → ℕ → Result Bytes
unfolding get_range
slice_at bytes offset len = ok_or (get_range offset len bytes) malformed_ed25519_precompile

-- The checks on the instruction's data, behind the load of the instruction.
unfoldable pub check_precompile_data : Bytes → Bytes → Bytes → Result (Unit {0})
unfolding read_u16 slice_at
check_precompile_data bytes expected_pubkey expected_digest = do
  refuse (ltb (length bytes) ed25519_data_start) malformed_ed25519_precompile
  refuse (not (byte_at 0 bytes == 1) || not (byte_at 1 bytes == 0)) malformed_ed25519_precompile
  let offsets = slice 2 14 bytes
  signature_offset ← read_u16 offsets 0
  signature_ix_index ← read_u16 offsets 2
  public_key_offset ← read_u16 offsets 4
  public_key_ix_index ← read_u16 offsets 6
  message_data_offset ← read_u16 offsets 8
  message_data_size ← read_u16 offsets 10
  message_ix_index ← read_u16 offsets 12
  refuse
      (not (signature_ix_index == u16_max)
        || not (public_key_ix_index == u16_max)
        || not (message_ix_index == u16_max))
      malformed_ed25519_precompile
  require (message_data_size == 32) malformed_ed25519_precompile
  pubkey ← slice_at bytes public_key_offset 32
  signature ← slice_at bytes signature_offset 64
  message ← slice_at bytes message_data_offset 32
  require (pubkey ==ᵇ expected_pubkey) invalid_ed25519
  require (message ==ᵇ expected_digest) invalid_ed25519
  ok tt

module _ (rt : Runtime) where
  unfoldable pub verify_ed25519_precompile : AccountInfo → Bytes → Bytes → Result (Unit {0})
  verify_ed25519_precompile sysvar expected_pubkey expected_digest = do
    require (sysvar.key ==ᵇ rt.instructions_sysvar_id) invalid_program_account
    ix ← ok_or rt.previous_instruction malformed_ed25519_precompile
    require (ix.program ==ᵇ rt.ed25519_program_id) malformed_ed25519_precompile
    check_precompile_data ix.payload expected_pubkey expected_digest
