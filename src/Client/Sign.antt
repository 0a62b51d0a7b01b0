-- ===== src/Client/Sign.antt =====
-- client/src/sign.rs: one digest for both schemes, the signed bundle and its verification.
pub mod Valid
pub mod Sound
use Prim.Native.String.{String, ◌++◌ as ◌<>◌}
use solana_hybrid_pq_account.Base.{
  ℕ, Bool, true, false, ◌&&◌, Option, none, some, Bytes, length, ◌==◌, ◌==ᵇ◌, if◌then◌else◌,
}
use solana_hybrid_pq_account.Core.Intent.{AuthorizationIntent}
use solana_hybrid_pq_account.Core.Canonical.{canonical_preimage}
use solana_hybrid_pq_account.Program.Runtime.{Runtime}
use solana_hybrid_pq_account.Client.Crates.{Crates, decoded, malformed}
use solana_hybrid_pq_account.Client.Error.{Result, ok, err, ◌>>=◌, hex}
use solana_hybrid_pq_account.Client.Intent.{IntentSpec, to_intent, from_intent}
use solana_hybrid_pq_account.Client.Keys.{Ed25519Keypair, FalconKeypair, public_bytes}
use solana_hybrid_pq_account.Client.FalconInterop.{
  WireSignature, sign_to_wire_with_retry, from_wire_bytes, padding_len, verify_pqclean_wire,
  verify_solana_raw, verify_solana_prepared, prepare_pubkey,
}

abbrev pub max_falcon_sign_attempts : ℕ
max_falcon_sign_attempts = 8

pub record SignedBundle : Type 0 where
  pub format : String
  pub intent : IntentSpec
  pub digest : String
  pub canonical_preimage : String
  pub ed25519_public_key : String
  pub ed25519_signature : String
  pub falcon512_public_key : String
  pub falcon512_public_key_sha256 : String
  pub falcon512_signature_wire : String
  pub falcon512_signature_encoded_len : ℕ
  pub falcon512_signature_padding_len : ℕ

pub record SigningMaterial : Type 0 where
  pub intent : AuthorizationIntent
  pub preimage : Bytes
  pub digest : Bytes

pub record VerificationReport : Type 0 where
  pub digest : Bytes
  pub ed25519_valid : Bool
  pub falcon_pqclean_valid : Bool
  pub falcon_solana_valid : Bool
  pub falcon_solana_prepared_valid : Bool
  pub shared_digest : Bool

unfoldable pub all_valid : VerificationReport → Bool
all_valid r =
    r.ed25519_valid && r.falcon_pqclean_valid && r.falcon_solana_valid
    && r.falcon_solana_prepared_valid && r.shared_digest

unfoldable pub mark : Bool → String
mark valid = if valid then "VALID" else "INVALID"

unfoldable pub signing_material : Runtime → AuthorizationIntent → SigningMaterial
signing_material rt intent =
    let preimage = canonical_preimage intent in
    record { intent = intent; preimage = preimage; digest = rt.sha256 preimage }

module _ (c : Crates) where
  unfoldable pub render : VerificationReport → String
  unfolding mark
  render r =
      ("Digest:                 " <> c.hex_encode r.digest <> "\n")
      <> ("Ed25519 verification:   " <> mark r.ed25519_valid <> "\n")
      <> ("Falcon (PQClean):       " <> mark r.falcon_pqclean_valid <> "\n")
      <> ("Falcon (Solana impl):   " <> mark r.falcon_solana_valid <> "\n")
      <> ("Falcon (Solana prep):   " <> mark r.falcon_solana_prepared_valid <> "\n")
      <> ("Shared digest:          " <> (if r.shared_digest then "YES" else "NO") <> "\n")

  -- `hex::decode(value).map_err(|source| ClientError::Hex { field, source })`
  unfoldable pub decode_field : String → String → Result Bytes
  decode_field field value = elim (c.hex_decode value) [
    | decoded bytes ↦ ok bytes
    | malformed source ↦ err (hex field source)
  ]

  unfoldable pub verify_ed25519 : Bytes → Bytes → Bytes → Bool
  verify_ed25519 public_key signature message =
      if length public_key == 32
      then elim (c.verifying_key public_key) [
        | none ↦ false
        | some verifying ↦
            if length signature == 64 then c.ed25519_verify verifying message signature else false
      ]
      else false

module _ (rt : Runtime) (c : Crates) where
  -- `call` counts the calls of the Falcon signer.
  unfoldable pub sign_intent :
      ℕ → AuthorizationIntent → Ed25519Keypair → FalconKeypair → Result SignedBundle
  unfolding signing_material
  sign_intent call intent ed falcon = do
    let material = signing_material rt intent
    let ed_sig = c.ed25519_sign ed.signing material.digest
    signed ← sign_to_wire_with_retry c call material.digest falcon.secret max_falcon_sign_attempts
    let wire = signed.1
    ok (record {
      format = "dualkey-signed-intent-v1";
      intent = from_intent c material.intent;
      digest = c.hex_encode material.digest;
      canonical_preimage = c.hex_encode material.preimage;
      ed25519_public_key = c.hex_encode (public_bytes c ed);
      ed25519_signature = c.hex_encode ed_sig;
      falcon512_public_key = c.hex_encode falcon.public;
      falcon512_public_key_sha256 = c.hex_encode (rt.sha256 falcon.public);
      falcon512_signature_wire = c.hex_encode wire.bytes;
      falcon512_signature_encoded_len = wire.encoded_len;
      falcon512_signature_padding_len = padding_len wire;
    })

  -- The check by the prepared key: a key that cannot be prepared counts as a refusal.
  unfoldable pub verify_prepared : WireSignature → Bytes → Bytes → Bool
  verify_prepared wire message pk = elim (prepare_pubkey rt pk) [
    | ok prepared ↦ verify_solana_prepared rt wire message prepared
    | err e ↦ false
  ]

  unfoldable pub verify_bundle : SignedBundle → Result VerificationReport
  unfolding signing_material decode_field verify_prepared
  verify_bundle bundle = do
    intent ← to_intent c bundle.intent
    let recomputed = signing_material rt intent
    stored ← decode_field c "digest" bundle.digest
    ed_pk ← decode_field c "ed25519_public_key" bundle.ed25519_public_key
    ed_sig ← decode_field c "ed25519_signature" bundle.ed25519_signature
    falcon_pk ← decode_field c "falcon512_public_key" bundle.falcon512_public_key
    falcon_wire ← decode_field c "falcon512_signature_wire" bundle.falcon512_signature_wire
    wire ← from_wire_bytes falcon_wire
    ok (record {
      digest = recomputed.digest;
      ed25519_valid = verify_ed25519 c ed_pk ed_sig recomputed.digest;
      falcon_pqclean_valid = verify_pqclean_wire c wire recomputed.digest falcon_pk;
      falcon_solana_valid = verify_solana_raw rt wire recomputed.digest falcon_pk;
      falcon_solana_prepared_valid = verify_prepared wire recomputed.digest falcon_pk;
      shared_digest = stored ==ᵇ recomputed.digest;
    })
