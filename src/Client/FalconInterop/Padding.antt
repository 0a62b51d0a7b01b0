-- ===== src/Client/FalconInterop/Padding.antt =====
-- The padded form of a signature, and how its length is recovered.
use mathlib.Core.Path.{subst}
use solana_hybrid_pq_account.Base.{
  ℕ, zero, suc, ◌-◌, ◌≤◌, ◌<◌, ◌≡◌, ◌≢◌, ◌↔◌, ◌⊎◌, inl, inr, refl, ap, ◌∙◌, none, [], ◌∷◌, ◌++◌,
  Bytes, length, take-append, length-append, arith,
}
use solana_hybrid_pq_account.Base.Buffer.{byte_at}
use solana_hybrid_pq_account.Base.Layout.{zeros, length-zeros, write-zeros}
use solana_hybrid_pq_account.Client.Error.{ok, err, falcon_signature_too_long}
use solana_hybrid_pq_account.Client.FalconInterop.{
  WireSignature, from_encoded_bytes, from_wire_bytes, encoded_bytes, padding_len, rposition_nonzero,
  one_past,
}

-- The signature, untouched, and zeros up to 666 bytes.
pub record Padded (encoded : Bytes) (s : WireSignature) : Type 0 where
  pub fits : length encoded ≤ 666
  pub padding : s.bytes ≡ encoded ++ zeros (padding_len s)
  pub recorded : s.encoded_len ≡ length encoded
  pub whole : length s.bytes ≡ 666
  pub prefix : encoded_bytes s ≡ encoded

abbrev pub pad : Bytes → WireSignature
pad e = record { bytes = e ++ zeros (666 - length e); encoded_len = length e }

pub pad-Padded : (e : Bytes) → length e ≤ 666 → Padded e (pad e)
unfolding encoded_bytes padding_len
pad-Padded e h = record {
  fits = h;
  padding = refl;
  recorded = refl;
  whole = omega (arith, length-append e (zeros (666 - length e)), length-zeros (666 - length e));
  prefix = take-append e (zeros (666 - length e)) (length e) refl;
}

pub from_encoded_bytes-pad : (e : Bytes) → length e ≤ 666 → from_encoded_bytes e ≡ ok (pad e)
unfolding from_encoded_bytes
from_encoded_bytes-pad e h =
    let w = write-zeros e 666 (666 - length e) (omega arith) in ground (arith, w)

pub from_encoded_bytes-refused :
    (e : Bytes)
    → 666 < length e
    → from_encoded_bytes e ≡ err (falcon_signature_too_long (length e) 666)
unfolding from_encoded_bytes
from_encoded_bytes-refused e h = ground arith

-- Exactly the signatures of at most 666 bytes are taken, and the form on the wire is the signature
-- itself with zeros behind it, of 666 bytes in all: none is cut.
pub from_encoded_bytes-Padded :
    (e : Bytes) (s : WireSignature) → (from_encoded_bytes e ≡ ok s) ↔ Padded e s
unfolding from_encoded_bytes padding_len
from_encoded_bytes-Padded e s = (
  λ h.
      let fits : length e ≤ 666 = ground arith in
      let same : s ≡ pad e = ground (arith, from_encoded_bytes-pad e fits) in
      rw same (pad-Padded e fits),
  λ p. from_encoded_bytes-pad e p.fits ∙ ap ok (ground (arith, p.padding, p.recorded)),
)

rposition-zeros : (k : ℕ) → rposition_nonzero (zeros k) ≡ none
unfolding rposition_nonzero zeros
rposition-zeros zero = refl
rposition-zeros (suc k) = rw (rposition-zeros k, rposition_nonzero) refl

rposition-append_zeros :
    (e : Bytes) (k : ℕ) → rposition_nonzero (e ++ zeros k) ≡ rposition_nonzero e
unfolding rposition_nonzero
rposition-append_zeros [] k = rposition-zeros k
rposition-append_zeros (x ∷ e) k = ground (arith, rposition-append_zeros e k)

-- The recovered length is the whole length exactly if the last byte is not zero.
one_past-rposition :
    (x : ℕ) (e : Bytes)
    → (one_past (rposition_nonzero (x ∷ e)) ≡ suc (length e)) ↔ (byte_at (length e) (x ∷ e) ≢ 0)
unfolding rposition_nonzero byte_at
one_past-rposition x [] = (λ h z. ground arith, λ h. ground arith)
one_past-rposition x (y ∷ e) =
    let ih = one_past-rposition y e in (λ h. ih.0 (ground arith), λ h. ground (arith, ih.1 h))

recovered_iff :
    (e : Bytes)
    → (one_past (rposition_nonzero e) ≡ length e) ↔ ((e ≡ []) ⊎ (byte_at (length e - 1) e ≢ 0))
recovered_iff [] = (λ h. inl refl, λ h. unfold rposition_nonzero in refl)
recovered_iff (x ∷ e) =
    let f : (one_past (rposition_nonzero (x ∷ e)) ≡ suc (length e))
        ↔ (byte_at (suc (length e) - 1) (x ∷ e) ≢ 0) =
      subst (λ n. (one_past (rposition_nonzero (x ∷ e)) ≡ suc (length e)) ↔ (byte_at n (x ∷ e) ≢ 0))
        (omega arith) (one_past-rposition x e) in
    (λ h. inr (f.0 h), λ h. elim h [ inl empty ↦ absurd (cc) | inr last ↦ f.1 last ])

-- Reading a padded signature back recovers it with its length exactly if the signature is empty or
-- its last byte is not zero.
pub from_wire_bytes-Padded :
    (e : Bytes) (s : WireSignature)
    → Padded e s
    → (from_wire_bytes s.bytes ≡ ok s) ↔ ((e ≡ []) ⊎ (byte_at (length e - 1) e ≢ 0))
unfolding from_wire_bytes
from_wire_bytes-Padded e s p =
    let f = recovered_iff e in
    let same : rposition_nonzero s.bytes ≡ rposition_nonzero e =
      ap rposition_nonzero p.padding ∙ rposition-append_zeros e (padding_len s) in
    (
      λ h. f.0 (ground (arith, p.whole, p.recorded, same)),
      λ h. let n = f.1 h in ground (arith, p.whole, p.recorded, same, n),
    )
