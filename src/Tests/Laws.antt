-- ===== src/Tests/Laws.antt =====
-- Encodings, layouts and policies.
use solana_hybrid_pq_account.Base.{◌≡◌, ◌≢◌, ◌↔◌, refl, true, arith, length, replicate}
use solana_hybrid_pq_account.Base.Buffer.{slice}
use solana_hybrid_pq_account.Base.Words.{IsU8}
use solana_hybrid_pq_account.Core.Error.{is_ok}
use solana_hybrid_pq_account.Core.Intent.{transfer_sol, AuthorizationIntent, IsIntent, IsKey}
use solana_hybrid_pq_account.Core.Canonical.{canonical_preimage}
use solana_hybrid_pq_account.Core.Canonical.Injective.{canonical_preimage-injective}
use solana_hybrid_pq_account.Core.Wire.{decode}
use solana_hybrid_pq_account.Core.Wire.Decoding.{decode_accepts, IsFragment}
use solana_hybrid_pq_account.Core.Account.{flags}
use solana_hybrid_pq_account.Core.Recovery.{social_recover_preimage}
use solana_hybrid_pq_account.Core.Recovery.Guardian.{guardian_separation}
use solana_hybrid_pq_account.Tests.Runs.{succeeds}
use solana_hybrid_pq_account.Tests.Fixture.{key, hybrid_bytes, all_u8-IsBytes}

key_IsKey : IsKey (key 14)
key_IsKey = (refl, all_u8-IsBytes (key 14) refl)

abbrev intent : AuthorizationIntent
intent = record {
  version = 1;
  chain_domain = key 14;
  program_id = key 14;
  account = key 14;
  nonce = 41;
  expiry_slot = 100;
  action = transfer_sol (key 14) 1000;
}

intent-IsIntent : IsIntent intent
intent-IsIntent = record {
  version_range = omega arith;
  chain_domain_range = key_IsKey;
  program_id_range = key_IsKey;
  account_range = key_IsKey;
  nonce_range = omega arith;
  expiry_slot_range = omega arith;
  action_range = (key_IsKey, omega arith);
}

canonical_preimage-injective_example : intent ≡ intent
canonical_preimage-injective_example =
    canonical_preimage-injective intent intent intent-IsIntent intent-IsIntent refl

decode_accepts_example : (is_ok (decode (replicate 49 1)) ≡ true) ↔ IsFragment (replicate 49 1)
decode_accepts_example = decode_accepts (replicate 49 1)

hybrid_size : length (hybrid_bytes 2 0 41) ≡ 1120
unfolding succeeds
hybrid_size = refl

hybrid_flags : IsU8 (flags (hybrid_bytes 2 0 41))
unfolding succeeds
hybrid_flags = omega arith

guardian_separation_example :
    slice 0 19 (social_recover_preimage (key 14) (key 14) (key 14) (key 14) 5)
    ≢ slice 0 19 (canonical_preimage intent)
guardian_separation_example =
    guardian_separation (key 14) (key 14) (key 14) (key 14) 5 intent intent-IsIntent (omega arith)
      (key_IsKey, key_IsKey, key_IsKey, key_IsKey)
