-- ===== src/Client/FalconInterop.antt =====
-- client/src/falcon_interop.rs: PQClean's signatures in the 666-byte form of solana-falcon512.
pub mod Padding
pub mod Retry
use solana_hybrid_pq_account.Base.{
  ℕ, zero, suc, ◌+◌, ◌-◌, Bool, true, false, Option, none, some, [], ◌∷◌, Bytes, length, take, ltb,
  leb, ◌==◌, if◌then◌else◌,
}
use solana_hybrid_pq_account.Base.Buffer.{write, byte_at}
use solana_hybrid_pq_account.Base.Layout.{zeros}
use solana_hybrid_pq_account.Program.Runtime.{Runtime}
use solana_hybrid_pq_account.Client.Crates.{Crates}
use solana_hybrid_pq_account.Client.Error.{
  ClientError, Result, ok, err, ◌>>=◌, ◌>>◌, require, ok_or, falcon_signature_too_long, falcon_key,
}

abbrev pub falcon_signature_len : ℕ
falcon_signature_len = 666

pub record WireSignature : Type 0 where
  pub bytes : Bytes
  pub encoded_len : ℕ

-- The pattern `ClientError::FalconSignatureTooLong { .. }`
abbrev pub is_too_long : ClientError → Bool
is_too_long (falcon_signature_too_long actual max) = true
is_too_long _ = false

unfoldable pub from_encoded_bytes : Bytes → Result WireSignature
from_encoded_bytes encoded =
    if ltb falcon_signature_len (length encoded)
    then err (falcon_signature_too_long (length encoded) falcon_signature_len)
    else ok (record {
      bytes = write 0 encoded (zeros falcon_signature_len);
      encoded_len = length encoded;
    })

-- `.iter().rposition(|&b| b != 0)`, on the positions of the tail first.
unfoldable pub rposition_nonzero : Bytes → Option ℕ
rposition_nonzero [] = none
rposition_nonzero (b ∷ bs) = elim (rposition_nonzero bs) [
  | some i ↦ some (suc i)
  | none ↦ if b == 0 then none else some 0
]

-- `.map_or(0, |i| i + 1)`
abbrev pub one_past : Option ℕ → ℕ
one_past none = 0
one_past (some i) = suc i

unfoldable pub from_wire_bytes : Bytes → Result WireSignature
from_wire_bytes bytes = do
  require (length bytes == falcon_signature_len)
      (falcon_key "wire signature must be exactly 666 bytes")
  ok (record { bytes = bytes; encoded_len = one_past (rposition_nonzero bytes) })

unfoldable pub encoded_bytes : WireSignature → Bytes
encoded_bytes s = take s.encoded_len s.bytes

unfoldable pub padding_len : WireSignature → ℕ
padding_len s = falcon_signature_len - s.encoded_len

unfoldable pub header : WireSignature → ℕ
header s = byte_at 0 s.bytes

-- `PreparedPubkey::from_slice`
unfoldable pub prepared_from_slice : Bytes → Result Bytes
prepared_from_slice bytes = do
  require (length bytes == 1024) (falcon_key "prepared public key must be exactly 1024 bytes")
  ok bytes

module _ (rt : Runtime) where
  unfoldable pub verify_solana_raw : WireSignature → Bytes → Bytes → Bool
  verify_solana_raw s message pubkey_wire = elim (rt.pubkey_from_slice pubkey_wire) [
    | none ↦ false
    | some pubkey ↦ elim (rt.signature_from_slice s.bytes) [
      | none ↦ false
      | some signature ↦ rt.verify signature message pubkey
    ]
  ]

  -- `as_verifier` expects that solana-falcon512 takes 1024 aligned bytes and panics otherwise; here
  -- that is a refusal.
  unfoldable pub verify_solana_prepared : WireSignature → Bytes → Bytes → Bool
  verify_solana_prepared s message prepared = elim (rt.signature_from_slice s.bytes) [
    | none ↦ false
    | some signature ↦ elim (rt.prepared_from_slice prepared) [
      | none ↦ false
      | some key ↦ rt.verify_with_prepared signature message key
    ]
  ]

  unfoldable pub prepare_pubkey : Bytes → Result Bytes
  prepare_pubkey pubkey_wire = do
    pubkey ←
        ok_or (rt.pubkey_from_slice pubkey_wire) (falcon_key "malformed 897-byte wire public key")
    ok_or (rt.try_prepare_pubkey pubkey) (falcon_key "public key failed NTT preparation")

module _ (c : Crates) where
  unfoldable pub to_pqclean : WireSignature → Result Bytes
  to_pqclean s =
      ok_or (c.pq_signature (encoded_bytes s))
        (falcon_key "PQClean rejected the signature encoding")

  unfoldable pub verify_pqclean_wire : WireSignature → Bytes → Bytes → Bool
  verify_pqclean_wire s message pubkey_wire = elim (c.pq_public_key pubkey_wire) [
    | none ↦ false
    | some public_key ↦ elim (c.pq_signature s.bytes) [
      | none ↦ false
      | some signature ↦ c.verify_detached signature message public_key
    ]
  ]

  -- The signature, and its form on the wire; `call` counts the calls of the signer.
  unfoldable pub sign_to_wire : ℕ → Bytes → Bytes → Result (Bytes × WireSignature)
  sign_to_wire call message secret_key = do
    let sig = c.detached_sign call message secret_key
    wire ← from_encoded_bytes sig
    ok (sig, wire)

  -- The rounds of the loop that are left, from the next attempt and the last error.
  unfoldable pub attempts :
      ℕ → ℕ → ℕ → Option ClientError → Bytes → Bytes → Result (Bytes × WireSignature × ℕ)
  attempts zero attempt call none message secret_key = err (falcon_key "Falcon signing failed")
  attempts zero attempt call (some e) message secret_key = err e
  attempts (suc rounds) attempt call last_err message secret_key =
      elim (sign_to_wire call message secret_key) [
        | ok signed ↦ ok (signed.0, signed.1, attempt)
        | err e ↦ elim (is_too_long e) [
          | true ↦ attempts rounds (attempt + 1) (call + 1) (some e) message secret_key
          | false ↦ err e
        ]
      ]

  unfoldable pub sign_to_wire_with_retry :
      ℕ → Bytes → Bytes → ℕ → Result (Bytes × WireSignature × ℕ)
  sign_to_wire_with_retry call message secret_key max_attempts =
      attempts (if leb max_attempts 1 then 1 else max_attempts) 1 call none message secret_key
