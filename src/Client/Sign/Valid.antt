-- ===== src/Client/Sign/Valid.antt =====
-- A bundle that was signed verifies.
use Prim.Native.String.{String}
use solana_hybrid_pq_account.Base.{
  ℕ, ◌+◌, ◌-◌, ◌≡◌, refl, sym, ap, ◌∙◌, true, some, Bytes, length, arith, ◌==ᵇ◌, ==ᵇ_refl,
}
use solana_hybrid_pq_account.Base.Layout.{zeros, zeros-IsBytes, append-IsBytes}
use solana_hybrid_pq_account.Base.Words.{IsBytes}
use solana_hybrid_pq_account.Core.Intent.{AuthorizationIntent, IsIntent}
use solana_hybrid_pq_account.Core.Canonical.{canonical_preimage}
use solana_hybrid_pq_account.Program.Runtime.{Runtime}
use solana_hybrid_pq_account.Client.Crates.{Crates, IsHex}
use solana_hybrid_pq_account.Client.Error.{ok, >>=-eq-ok, ok-injective}
use solana_hybrid_pq_account.Client.Intent.{from_intent}
use solana_hybrid_pq_account.Client.Intent.RoundTrip.{to_intent-from_intent}
use solana_hybrid_pq_account.Client.Keys.{Ed25519Keypair, FalconKeypair, public_bytes}
use solana_hybrid_pq_account.Client.FalconInterop.{
  WireSignature, sign_to_wire_with_retry, from_wire_bytes, one_past, rposition_nonzero, padding_len,
  verify_pqclean_wire, verify_solana_raw, verify_solana_prepared, prepare_pubkey,
}
use solana_hybrid_pq_account.Client.FalconInterop.Padding.{Padded}
use solana_hybrid_pq_account.Client.FalconInterop.Retry.{draw, sign_to_wire_with_retry-FirstFit}
use solana_hybrid_pq_account.Client.Sign.{
  SignedBundle, VerificationReport, all_valid, decode_field, verify_ed25519, verify_prepared,
  sign_intent, verify_bundle, signing_material,
}

module _ (rt : Runtime) (c : Crates) where
  -- What the crates promise of two key pairs and a message: bytes in, bytes out, and what a key
  -- signed its verifiers accept, for Falcon in the padded form.
  pub record Interoperates (ed : Ed25519Keypair) (falcon : FalconKeypair) (message : Bytes)
      : Type 0 where
    pub message_bytes : IsBytes message
    pub owner_size : length (public_bytes c ed) ≡ 32
    pub owner_bytes : IsBytes (public_bytes c ed)
    pub sig_size : length (c.ed25519_sign ed.signing message) ≡ 64
    pub sig_bytes : IsBytes (c.ed25519_sign ed.signing message)
    pub verifying : Bytes
    pub verifying_read : c.verifying_key (public_bytes c ed) ≡ some verifying
    pub ed25519_accepts :
        c.ed25519_verify verifying message (c.ed25519_sign ed.signing message) ≡ true
    pub key_bytes : IsBytes falcon.public
    pub draws_bytes : (n : ℕ) → IsBytes (draw c message falcon.secret n)
    pub pq_key : Bytes
    pub pq_key_read : c.pq_public_key falcon.public ≡ some pq_key
    pub pq_accepts :
        (n : ℕ) (s : WireSignature)
        → Padded (draw c message falcon.secret n) s
        → (q : Bytes) × (c.pq_signature s.bytes ≡ some q)
          × (c.verify_detached q message pq_key ≡ true)
    pub solana_key : Bytes
    pub solana_key_read : rt.pubkey_from_slice falcon.public ≡ some solana_key
    pub prepared : Bytes
    pub key_prepares : rt.try_prepare_pubkey solana_key ≡ some prepared
    pub prepared_key : Bytes
    pub prepared_read : rt.prepared_from_slice prepared ≡ some prepared_key
    pub solana_accepts :
        (n : ℕ) (s : WireSignature)
        → Padded (draw c message falcon.secret n) s
        → (q : Bytes) × (rt.signature_from_slice s.bytes ≡ some q)
          × (rt.verify q message solana_key ≡ true)
          × (rt.verify_with_prepared q message prepared_key ≡ true)

  decode_field-hex_encode :
      IsHex c
      → (field : String) (b : Bytes) → IsBytes b
      → decode_field c field (c.hex_encode b) ≡ ok b
  unfolding decode_field
  decode_field-hex_encode h field b r = ground (arith, h.decode-encode b r)

  -- The form on the wire, as it is read back.
  abbrev read_back : WireSignature → WireSignature
  read_back s = record { bytes = s.bytes; encoded_len = one_past (rposition_nonzero s.bytes) }

  reads_back :
      (e : Bytes) (s : WireSignature) → Padded e s → from_wire_bytes s.bytes ≡ ok (read_back s)
  unfolding from_wire_bytes
  reads_back e s p = ground (arith, p.whole)

  module _ (i : AuthorizationIntent) (ed : Ed25519Keypair) (falcon : FalconKeypair) where
    abbrev digest : Bytes
    digest = rt.sha256 (canonical_preimage i)

    abbrev bundle : WireSignature → SignedBundle
    bundle wire = record {
      format = "dualkey-signed-intent-v1";
      intent = from_intent c i;
      digest = c.hex_encode digest;
      canonical_preimage = c.hex_encode (canonical_preimage i);
      ed25519_public_key = c.hex_encode (public_bytes c ed);
      ed25519_signature = c.hex_encode (c.ed25519_sign ed.signing digest);
      falcon512_public_key = c.hex_encode falcon.public;
      falcon512_public_key_sha256 = c.hex_encode (rt.sha256 falcon.public);
      falcon512_signature_wire = c.hex_encode wire.bytes;
      falcon512_signature_encoded_len = wire.encoded_len;
      falcon512_signature_padding_len = padding_len wire;
    }

    abbrev report : WireSignature → VerificationReport
    report wire = record {
      digest = digest;
      ed25519_valid =
          verify_ed25519 c (public_bytes c ed) (c.ed25519_sign ed.signing digest) digest;
      falcon_pqclean_valid = verify_pqclean_wire c (read_back wire) digest falcon.public;
      falcon_solana_valid = verify_solana_raw rt (read_back wire) digest falcon.public;
      falcon_solana_prepared_valid = verify_prepared rt c (read_back wire) digest falcon.public;
      shared_digest = digest ==ᵇ digest;
    }

    module _ (h : IsHex c) (r : IsIntent i) (x : Interoperates ed falcon digest) (n : ℕ)
        (wire : WireSignature) (p : Padded (draw c digest falcon.secret n) wire) where
      padded_bytes : IsBytes wire.bytes
      padded_bytes = rw p.padding (
          append-IsBytes (draw c digest falcon.secret n) (zeros (padding_len wire))
            (x.draws_bytes n) (zeros-IsBytes (padding_len wire)))

      verifies : verify_bundle rt c (bundle wire) ≡ ok (report wire)
      unfolding verify_bundle signing_material
      verifies = ground (
        arith,
        to_intent-from_intent c h i r,
        decode_field-hex_encode h "digest" digest x.message_bytes,
        decode_field-hex_encode h "ed25519_public_key" (public_bytes c ed) x.owner_bytes,
        decode_field-hex_encode h "ed25519_signature" (c.ed25519_sign ed.signing digest)
            x.sig_bytes,
        decode_field-hex_encode h "falcon512_public_key" falcon.public x.key_bytes,
        decode_field-hex_encode h "falcon512_signature_wire" wire.bytes padded_bytes,
        reads_back (draw c digest falcon.secret n) wire p,
      )

      valid_ed25519 : (report wire).ed25519_valid ≡ true
      unfolding verify_ed25519
      valid_ed25519 = ground (arith, x.owner_size, x.sig_size, x.verifying_read, x.ed25519_accepts)

      valid_pqclean : (report wire).falcon_pqclean_valid ≡ true
      unfolding verify_pqclean_wire
      valid_pqclean = let (q, e, v) = x.pq_accepts n wire p in ground (arith, x.pq_key_read, e, v)

      valid_solana : (report wire).falcon_solana_valid ≡ true
      unfolding verify_solana_raw
      valid_solana =
          let (q, e, v, vp) = x.solana_accepts n wire p in ground (arith, x.solana_key_read, e, v)

      valid_prepared : (report wire).falcon_solana_prepared_valid ≡ true
      unfolding verify_prepared verify_solana_prepared prepare_pubkey
      valid_prepared =
          let (q, e, v, vp) = x.solana_accepts n wire p in
          ground (arith, x.solana_key_read, x.key_prepares, x.prepared_read, e, vp)

      all_hold : all_valid (report wire) ≡ true
      unfolding all_valid
      all_hold = rw (valid_ed25519, valid_pqclean, valid_solana, valid_prepared) (==ᵇ_refl digest)

    -- If `hex` reads what it wrote and the crates accept what they sign: a bundle that was signed
    -- for an intent verifies, every check of it passes, and the report is about the digest of that
    -- intent.
    pub sign_intent-valid :
        (call : ℕ) (b : SignedBundle)
        → IsHex c
        → IsIntent i
        → Interoperates ed falcon digest
        → sign_intent rt c call i ed falcon ≡ ok b
        → (r : VerificationReport) × (verify_bundle rt c b ≡ ok r)
          × (all_valid r ≡ true)
          × (r.digest ≡ rt.sha256 (canonical_preimage i))
    unfolding sign_intent signing_material
    sign_intent-valid call b h r x e =
        let (signed, es, rest) =
          >>=-eq-ok (sign_to_wire_with_retry c call digest falcon.secret 8) _ e in
        let same : bundle signed.1 ≡ b = ok-injective rest in
        let (low, high, f) =
          (sign_to_wire_with_retry-FirstFit c digest falcon.secret call 8 signed.2 signed.0
              signed.1).0
            es in
        let p : Padded (draw c digest falcon.secret (call + (signed.2 - 1))) signed.1 =
          rw (sym f.drawn) f.padded in
        (
          report signed.1,
          ap (verify_bundle rt c) (sym same) ∙ verifies h r x (call + (signed.2 - 1)) signed.1 p,
          all_hold h r x (call + (signed.2 - 1)) signed.1 p,
          refl,
        )
