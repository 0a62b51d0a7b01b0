-- ===== src/Program/Ed25519/Sound.antt =====
-- What an Ed25519 precompile instruction contains that the program accepts.
use solana_hybrid_pq_account.Base.{
  ℕ, ◌+◌, ◌≤◌, ◌≡◌, ◌↔◌, Bytes, length, arith, ==ᵇ_iff, inl, inr, Option-cases, some,
}
use solana_hybrid_pq_account.Base.Buffer.{slice, byte_at, length-slice}
use solana_hybrid_pq_account.Base.Words.{from_le_bytes}
use solana_hybrid_pq_account.Core.Error.{ok}
use solana_hybrid_pq_account.Program.Runtime.{Runtime, AccountInfo, Instruction, get_range}
use solana_hybrid_pq_account.Program.Ed25519.{
  read_u16, slice_at, check_precompile_data, verify_ed25519_precompile,
}

-- The `u16` at an offset of the offsets' table.
abbrev pub offset_at : ℕ → Bytes → ℕ
offset_at o bytes = from_le_bytes (slice o 2 (slice 2 14 bytes))

-- A precompile instruction with one signature, whose parts all lie in its own data.
pub record Names (bytes key digest : Bytes) : Type 0 where
  pub header : 16 ≤ length bytes
  pub one_signature : byte_at 0 bytes ≡ 1
  pub no_padding : byte_at 1 bytes ≡ 0
  pub signature_here : offset_at 2 bytes ≡ 65535
  pub key_here : offset_at 6 bytes ≡ 65535
  pub message_here : offset_at 12 bytes ≡ 65535
  pub message_size : offset_at 10 bytes ≡ 32
  pub key_inside : offset_at 4 bytes + 32 ≤ length bytes
  pub signature_inside : offset_at 0 bytes + 64 ≤ length bytes
  pub message_inside : offset_at 8 bytes + 32 ≤ length bytes
  pub key_named : slice (offset_at 4 bytes) 32 bytes ≡ key
  pub digest_named : slice (offset_at 8 bytes) 32 bytes ≡ digest

module _ (bytes key digest : Bytes) where
  -- The seven reads of the table.
  reads :
      16 ≤ length bytes
      → (o : ℕ) → o + 2 ≤ 14
      → read_u16 (slice 2 14 bytes) o ≡ ok (offset_at o bytes)
  unfolding read_u16 get_range
  reads size o fits = ground (arith, length-slice 2 14 bytes (omega arith))

  size_of : check_precompile_data bytes key digest ≡ ok tt → 16 ≤ length bytes
  unfolding check_precompile_data
  size_of h = ground arith

  names : check_precompile_data bytes key digest ≡ ok tt → Names bytes key digest
  unfolding check_precompile_data slice_at get_range
  names h =
      let size = size_of h in
      let r = reads size in
      let (s, p, a, b, c, d, k, g, m, kn, dn) : (byte_at 0 bytes ≡ 1)
          × (byte_at 1 bytes ≡ 0)
          × (offset_at 2 bytes ≡ 65535)
          × (offset_at 6 bytes ≡ 65535)
          × (offset_at 12 bytes ≡ 65535)
          × (offset_at 10 bytes ≡ 32)
          × (offset_at 4 bytes + 32 ≤ length bytes)
          × (offset_at 0 bytes + 64 ≤ length bytes)
          × (offset_at 8 bytes + 32 ≤ length bytes)
          × (slice (offset_at 4 bytes) 32 bytes ≡ key)
          × (slice (offset_at 8 bytes) 32 bytes ≡ digest) =
        ground (
          arith,
          r 0 (omega arith),
          r 2 (omega arith),
          r 4 (omega arith),
          r 6 (omega arith),
          r 8 (omega arith),
          r 10 (omega arith),
          r 12 (omega arith),
          ==ᵇ_iff (slice (offset_at 4 bytes) 32 bytes) key,
          ==ᵇ_iff (slice (offset_at 8 bytes) 32 bytes) digest,
        ) in
      record {
        header = size;
        one_signature = s;
        no_padding = p;
        signature_here = a;
        key_here = b;
        message_here = c;
        message_size = d;
        key_inside = k;
        signature_inside = g;
        message_inside = m;
        key_named = kn;
        digest_named = dn;
      }

  accepts : Names bytes key digest → check_precompile_data bytes key digest ≡ ok tt
  unfolding check_precompile_data slice_at get_range
  accepts n =
      let r = reads n.header in
      ground (
        arith,
        n.header,
        n.one_signature,
        n.no_padding,
        n.signature_here,
        n.key_here,
        n.message_here,
        n.message_size,
        n.key_inside,
        n.signature_inside,
        n.message_inside,
        n.key_named,
        n.digest_named,
        r 0 (omega arith),
        r 2 (omega arith),
        r 4 (omega arith),
        r 6 (omega arith),
        r 8 (omega arith),
        r 10 (omega arith),
        r 12 (omega arith),
        ==ᵇ_iff (slice (offset_at 4 bytes) 32 bytes) key,
        ==ᵇ_iff (slice (offset_at 8 bytes) 32 bytes) digest,
      )

-- The Ed25519 check accepts exactly when the given account is the instructions sysvar and the
-- instruction before is one of the Ed25519 program, with a single signature and a zero byte of
-- padding, whose key, signature and message all lie in that instruction's own data, and whose key
-- and message are the expected key and digest.
pub verify_ed25519_precompile-Names :
    (rt : Runtime) (sysvar : AccountInfo) (key digest : Bytes)
    → (verify_ed25519_precompile rt sysvar key digest ≡ ok tt) ↔ (
        (sysvar.key ≡ rt.instructions_sysvar_id)
        × (ix : Instruction) × (rt.previous_instruction ≡ some ix)
        × (ix.program ≡ rt.ed25519_program_id)
        × Names ix.payload key digest)
unfolding verify_ed25519_precompile
verify_ed25519_precompile-Names rt sysvar key digest = (
  λ h. elim (Option-cases rt.previous_instruction) [
    | inl missing ↦ absurd (ground arith)
    | inr (ix, e) ↦
        let (a, b, c) : (sysvar.key ≡ rt.instructions_sysvar_id)
            × (ix.program ≡ rt.ed25519_program_id)
            × (check_precompile_data ix.payload key digest ≡ ok tt) =
          ground (
            arith,
            ==ᵇ_iff sysvar.key rt.instructions_sysvar_id,
            ==ᵇ_iff ix.program rt.ed25519_program_id,
          ) in
        (a, ix, e, b, names ix.payload key digest c)
  ],
  λ (a, ix, e, b, n). ground (
    arith,
    ==ᵇ_iff sysvar.key rt.instructions_sysvar_id,
    ==ᵇ_iff ix.program rt.ed25519_program_id,
    accepts ix.payload key digest n,
  ),
)
