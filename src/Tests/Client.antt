-- ===== src/Tests/Client.antt =====
-- The client's signatures, intents and bundles.
use solana_hybrid_pq_account.Base.{
  ℕ, Bool, false, ◌-◌, ◌≤◌, ◌≡◌, ◌≢◌, ◌↔◌, ◌⊎◌, refl, true, inl, inr, Bool-cases, ◌==◌, [], Bytes,
  length, replicate, arith,
}
use solana_hybrid_pq_account.Base.Buffer.{byte_at}
use solana_hybrid_pq_account.Base.Words.{IsBytes}
use solana_hybrid_pq_account.Core.Intent
use solana_hybrid_pq_account.Core.Intent.{AuthorizationIntent, IsIntent}
use solana_hybrid_pq_account.Core.Canonical.{canonical_preimage}
use solana_hybrid_pq_account.Client.Error.{Result, ok, err, falcon_signature_too_long}
use solana_hybrid_pq_account.Client.Intent.{to_intent, from_intent, from_action}
use solana_hybrid_pq_account.Client.Intent.RoundTrip.{
  IsIntentSpec, to_intent-from_intent, to_intent-IsIntent,
}
use solana_hybrid_pq_account.Client.Keys.{Ed25519Keypair, FalconKeypair, public_bytes}
use solana_hybrid_pq_account.Client.FalconInterop.{
  from_encoded_bytes, from_wire_bytes, sign_to_wire, attempts, sign_to_wire_with_retry,
}
use solana_hybrid_pq_account.Client.FalconInterop.Padding.{
  Padded, pad, pad-Padded, from_encoded_bytes-Padded, from_wire_bytes-Padded,
}
use solana_hybrid_pq_account.Client.FalconInterop.Retry.{
  FirstFit, rounds, draw, sign_to_wire_with_retry-FirstFit,
}
use solana_hybrid_pq_account.Client.Sign.{
  SignedBundle, VerificationReport, signing_material, all_valid, sign_intent, verify_bundle,
}
use solana_hybrid_pq_account.Client.Sign.Valid.{Interoperates, sign_intent-valid}
use solana_hybrid_pq_account.Client.Sign.Sound.{Verified, verify_bundle-Verified}
use solana_hybrid_pq_account.Tests.Fixture.{key, all_u8-IsBytes}
use solana_hybrid_pq_account.Tests.Crates.{crates, crates-IsHex, local_runtime}

abbrev signature : Bytes
signature = replicate 650 1

from_encoded_bytes-Padded_example :
    (from_encoded_bytes signature ≡ ok (pad signature)) ↔ Padded signature (pad signature)
from_encoded_bytes-Padded_example = from_encoded_bytes-Padded signature (pad signature)

from_wire_bytes-Padded_example :
    (from_wire_bytes (pad signature).bytes ≡ ok (pad signature))
    ↔ ((signature ≡ []) ⊎ (byte_at (length signature - 1) signature ≢ 0))
from_wire_bytes-Padded_example =
    from_wire_bytes-Padded signature (pad signature) (pad-Padded signature (omega arith))

-- The first signature has 700 bytes, the second one fits.
sign_to_wire_with_retry-FirstFit_example :
    (sign_to_wire_with_retry crates 0 (key 5) (key 6) 8 ≡ ok (signature, pad signature, 2)) ↔ (
      (1 ≤ 2)
      × (2 ≤ rounds 8)
      × FirstFit crates (key 5) (key 6) 0 (2 - 1) signature (pad signature))
sign_to_wire_with_retry-FirstFit_example =
    sign_to_wire_with_retry-FirstFit crates (key 5) (key 6) 0 8 2 signature (pad signature)

exhausted :
    sign_to_wire_with_retry crates 0 (key 5) (key 6) 0 ≡ err (falcon_signature_too_long 700 666)
unfolding sign_to_wire_with_retry attempts sign_to_wire from_encoded_bytes
exhausted = refl

abbrev intent : AuthorizationIntent
intent = record {
  version = 1;
  chain_domain = key 14;
  program_id = key 9;
  account = key 1;
  nonce = 41;
  expiry_slot = 100;
  action = Intent.transfer_sol (key 2) 500;
}

intent-IsIntent : IsIntent intent
intent-IsIntent = omega arith

to_intent-from_intent_example : to_intent crates (from_intent crates intent) ≡ ok intent
to_intent-from_intent_example = to_intent-from_intent crates crates-IsHex intent intent-IsIntent

spec-IsIntentSpec : IsIntentSpec (from_intent crates intent)
unfolding from_intent from_action
spec-IsIntentSpec = omega arith

to_intent-IsIntent_example : IsIntent intent
to_intent-IsIntent_example =
    to_intent-IsIntent crates crates-IsHex (from_intent crates intent) intent spec-IsIntentSpec
      to_intent-from_intent_example

abbrev ed : Ed25519Keypair
ed = record { signing = key 3 }

abbrev falcon : FalconKeypair
falcon = record { public = replicate 897 2; secret = key 6 }

abbrev message : Bytes
message = local_runtime.sha256 (canonical_preimage intent)

draws-IsBytes : (n : ℕ) → IsBytes (draw crates message falcon.secret n)
draws-IsBytes n = elim (Bool-cases (n == 0)) [
  | inl first ↦ rw first (all_u8-IsBytes (replicate 700 1) refl)
  | inr later ↦ rw later (all_u8-IsBytes (replicate 650 1) refl)
]

interoperates : Interoperates local_runtime crates ed falcon message
unfolding public_bytes
interoperates = record {
  message_bytes = all_u8-IsBytes message refl;
  owner_size = refl;
  owner_bytes = all_u8-IsBytes (key 7) refl;
  sig_size = refl;
  sig_bytes = all_u8-IsBytes (replicate 64 3) refl;
  verifying = key 7;
  verifying_read = refl;
  ed25519_accepts = refl;
  key_bytes = all_u8-IsBytes (replicate 897 2) refl;
  draws_bytes = draws-IsBytes;
  pq_key = replicate 897 2;
  pq_key_read = refl;
  pq_accepts = λ n s p. (s.bytes, refl, refl);
  solana_key = replicate 897 2;
  solana_key_read = refl;
  prepared = replicate 1024 6;
  key_prepares = refl;
  prepared_key = replicate 1024 6;
  prepared_read = refl;
  solana_accepts = λ n s p. (s.bytes, refl, refl, refl);
}

abbrev placeholder : SignedBundle
placeholder = record {
  format = "";
  intent = from_intent crates intent;
  digest = "";
  canonical_preimage = "";
  ed25519_public_key = "";
  ed25519_signature = "";
  falcon512_public_key = "";
  falcon512_public_key_sha256 = "";
  falcon512_signature_wire = "";
  falcon512_signature_encoded_len = 0;
  falcon512_signature_padding_len = 0;
}

abbrev pub run {ℓ} : {A : Type ℓ} → Result A → A → A
run (ok a) d = a
run (err e) d = d

abbrev succeeds {ℓ} : {A : Type ℓ} → Result A → Bool
succeeds (ok a) = true
succeeds (err e) = false

run-ok {ℓ} : {A : Type ℓ} (r : Result A) (d : A) → succeeds r ≡ true → r ≡ ok (run r d)
run-ok (ok a) d h = refl
run-ok (err e) d h = cc

abbrev bundle : SignedBundle
bundle = run (sign_intent local_runtime crates 0 intent ed falcon) placeholder

signed : sign_intent local_runtime crates 0 intent ed falcon ≡ ok bundle
unfolding sign_intent signing_material sign_to_wire_with_retry attempts sign_to_wire
    from_encoded_bytes
signed = run-ok (sign_intent local_runtime crates 0 intent ed falcon) placeholder refl

sign_intent-valid_example :
    (r : VerificationReport) × (verify_bundle local_runtime crates bundle ≡ ok r)
    × (all_valid r ≡ true)
    × (r.digest ≡ local_runtime.sha256 (canonical_preimage intent))
sign_intent-valid_example =
    sign_intent-valid local_runtime crates intent ed falcon 0 bundle crates-IsHex intent-IsIntent
      interoperates signed

validated :
    (r : VerificationReport) × (verify_bundle local_runtime crates bundle ≡ ok r)
    × (all_valid r ≡ true)
    × (r.digest ≡ local_runtime.sha256 (canonical_preimage intent))
validated =
    sign_intent-valid local_runtime crates intent ed falcon 0 bundle crates-IsHex intent-IsIntent
      interoperates signed

verify_bundle-Verified_example : Verified local_runtime crates bundle validated.0.digest
verify_bundle-Verified_example =
    verify_bundle-Verified local_runtime crates bundle validated.0 validated.1 validated.2
