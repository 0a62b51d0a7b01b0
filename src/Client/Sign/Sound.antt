-- ===== src/Client/Sign/Sound.antt =====
-- What a bundle that verifies contains.
use Prim.Native.String.{String}
use solana_hybrid_pq_account.Base.{
  ◌≡◌, refl, sym, ap, ◌∙◌, ◌==ᵇ◌, true, inl, inr, Bytes, length, arith, ==ᵇ_iff,
}
use solana_hybrid_pq_account.Core.Intent.{AuthorizationIntent}
use solana_hybrid_pq_account.Core.Canonical.{canonical_preimage}
use solana_hybrid_pq_account.Core.Error
use solana_hybrid_pq_account.Program.Runtime.{Runtime}
use solana_hybrid_pq_account.Program.Falcon.{verify_falcon_prepared, verify_falcon_raw}
use solana_hybrid_pq_account.Client.Crates.{Crates, decoded}
use solana_hybrid_pq_account.Client.Error.{ok, >>=-eq-ok, Result-cases, ok-injective}
use solana_hybrid_pq_account.Client.Intent.{to_intent}
use solana_hybrid_pq_account.Client.FalconInterop.{
  WireSignature, from_wire_bytes, verify_pqclean_wire, verify_solana_raw, verify_solana_prepared,
  prepare_pubkey,
}
use solana_hybrid_pq_account.Client.Sign.{
  SignedBundle, VerificationReport, all_valid, decode_field, verify_ed25519, verify_prepared,
  verify_bundle, signing_material,
}

module _ (rt : Runtime) where
  -- The client's checks by solana-falcon512 are the program's.
  raw-program :
      (s : WireSignature) (message pk : Bytes)
      → verify_solana_raw rt s message pk ≡ true
      → verify_falcon_raw rt pk message s.bytes ≡ Error.ok tt
  unfolding verify_solana_raw verify_falcon_raw
  raw-program s message pk h = ground arith

  prepared-program :
      (s : WireSignature) (message prepared : Bytes)
      → verify_solana_prepared rt s message prepared ≡ true
      → verify_falcon_prepared rt prepared message s.bytes ≡ Error.ok tt
  unfolding verify_solana_prepared verify_falcon_prepared
  prepared-program s message prepared h = ground arith

module _ (rt : Runtime) (c : Crates) where
  decode_field-decoded :
      (field : String) (value : String) (b : Bytes)
      → decode_field c field value ≡ ok b
      → c.hex_decode value ≡ decoded b
  unfolding decode_field
  decode_field-decoded field value b h = ground arith

  -- A bundle whose signatures are all over the digest of its own intent.
  pub record Verified (b : SignedBundle) (digest : Bytes) : Type 0 where
    pub intent : AuthorizationIntent
    pub intent_read : to_intent c b.intent ≡ ok intent
    pub digest_of_intent : digest ≡ rt.sha256 (canonical_preimage intent)
    pub digest_stored : c.hex_decode b.digest ≡ decoded digest
    pub owner : Bytes
    pub owner_read : c.hex_decode b.ed25519_public_key ≡ decoded owner
    pub owner_sig : Bytes
    pub owner_sig_read : c.hex_decode b.ed25519_signature ≡ decoded owner_sig
    pub signed_ed25519 : verify_ed25519 c owner owner_sig digest ≡ true
    pub key : Bytes
    pub key_read : c.hex_decode b.falcon512_public_key ≡ decoded key
    pub wire : Bytes
    pub wire_read : c.hex_decode b.falcon512_signature_wire ≡ decoded wire
    pub wire_size : length wire ≡ 666
    pub prepared : Bytes
    pub key_prepared : prepare_pubkey rt key ≡ ok prepared
    pub accepted_raw : verify_falcon_raw rt key digest wire ≡ Error.ok tt
    pub accepted_prepared : verify_falcon_prepared rt prepared digest wire ≡ Error.ok tt

  -- The report, from what has been read.
  abbrev report :
      AuthorizationIntent → Bytes → Bytes → Bytes → Bytes → WireSignature → VerificationReport
  report i stored owner sig key wire =
      let digest = rt.sha256 (canonical_preimage i) in
      record {
        digest = digest;
        ed25519_valid = verify_ed25519 c owner sig digest;
        falcon_pqclean_valid = verify_pqclean_wire c wire digest key;
        falcon_solana_valid = verify_solana_raw rt wire digest key;
        falcon_solana_prepared_valid = verify_prepared rt c wire digest key;
        shared_digest = stored ==ᵇ digest;
      }

  wire_kept :
      (bytes : Bytes) (wire : WireSignature)
      → from_wire_bytes bytes ≡ ok wire
      → (length bytes ≡ 666) × (wire.bytes ≡ bytes)
  unfolding from_wire_bytes
  wire_kept bytes wire h = ground arith

  prepared_found :
      (wire : WireSignature) (message key : Bytes)
      → verify_prepared rt c wire message key ≡ true
      → (p : Bytes) × (prepare_pubkey rt key ≡ ok p)
        × (verify_solana_prepared rt wire message p ≡ true)
  unfolding verify_prepared
  prepared_found wire message key h = elim (Result-cases (prepare_pubkey rt key)) [
    | inl (p, e) ↦ (p, e, ground arith)
    | inr (x, e) ↦ absurd (ground arith)
  ]

  module _ (b : SignedBundle) (i : AuthorizationIntent) (stored owner sig key bytes : Bytes)
      (wire : WireSignature) where
    verified :
        to_intent c b.intent ≡ ok i
        → c.hex_decode b.digest ≡ decoded stored
        → c.hex_decode b.ed25519_public_key ≡ decoded owner
        → c.hex_decode b.ed25519_signature ≡ decoded sig
        → c.hex_decode b.falcon512_public_key ≡ decoded key
        → c.hex_decode b.falcon512_signature_wire ≡ decoded bytes
        → from_wire_bytes bytes ≡ ok wire
        → all_valid (report i stored owner sig key wire) ≡ true
        → Verified b (rt.sha256 (canonical_preimage i))
    unfolding all_valid
    verified ei es eo eg ek ew ex valid =
        let digest = rt.sha256 (canonical_preimage i) in
        let (ed, raw, prep, shared) : (verify_ed25519 c owner sig digest ≡ true)
            × (verify_solana_raw rt wire digest key ≡ true)
            × (verify_prepared rt c wire digest key ≡ true)
            × (stored ≡ digest) =
          ground (arith, ==ᵇ_iff stored digest) in
        let (size, same) = wire_kept bytes wire ex in
        let (p, prepared, accepted) = prepared_found wire digest key prep in
        record {
          intent = i;
          intent_read = ei;
          digest_of_intent = refl;
          digest_stored = es ∙ ap decoded shared;
          owner = owner;
          owner_read = eo;
          owner_sig = sig;
          owner_sig_read = eg;
          signed_ed25519 = ed;
          key = key;
          key_read = ek;
          wire = bytes;
          wire_read = ew;
          wire_size = size;
          prepared = p;
          key_prepared = prepared;
          accepted_raw = rw (sym same) (raw-program rt wire digest key raw);
          accepted_prepared = rw (sym same) (prepared-program rt wire digest p accepted);
        }

  -- If every check of a bundle passes, then its signatures are over the digest that is recomputed
  -- from its own intent and equals the stored one, and the program's own two checks accept the
  -- Falcon signature over it, for the bundle's key and for that key's prepared form.
  pub verify_bundle-Verified :
      (b : SignedBundle) (r : VerificationReport)
      → verify_bundle rt c b ≡ ok r
      → all_valid r ≡ true
      → Verified b r.digest
  unfolding verify_bundle
  verify_bundle-Verified b r h valid =
      let (i, ei, h₁) = >>=-eq-ok (to_intent c b.intent) _ h in
      let (stored, es, h₂) = >>=-eq-ok (decode_field c "digest" b.digest) _ h₁ in
      let (owner, eo, h₃) =
        >>=-eq-ok (decode_field c "ed25519_public_key" b.ed25519_public_key) _ h₂ in
      let (sig, eg, h₄) = >>=-eq-ok (decode_field c "ed25519_signature" b.ed25519_signature) _ h₃ in
      let (key, ek, h₅) =
        >>=-eq-ok (decode_field c "falcon512_public_key" b.falcon512_public_key) _ h₄ in
      let (bytes, ew, h₆) =
        >>=-eq-ok (decode_field c "falcon512_signature_wire" b.falcon512_signature_wire) _ h₅ in
      let (wire, ex, h₇) = >>=-eq-ok (from_wire_bytes bytes) _ h₆ in
      let same : report i stored owner sig key wire ≡ r =
        unfold signing_material in ok-injective h₇ in
      rw (sym (ap (λ x. x.digest) same)) (
        verified b i stored owner sig key bytes wire ei
          (decode_field-decoded "digest" b.digest stored es)
          (decode_field-decoded "ed25519_public_key" b.ed25519_public_key owner eo)
          (decode_field-decoded "ed25519_signature" b.ed25519_signature sig eg)
          (decode_field-decoded "falcon512_public_key" b.falcon512_public_key key ek)
          (decode_field-decoded "falcon512_signature_wire" b.falcon512_signature_wire bytes ew) ex
          (ap all_valid same ∙ valid))
