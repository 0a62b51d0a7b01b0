-- ===== src/Program/Reconstruct/Digest.antt =====
-- When `reconstruct_and_digest` succeeds, and with which digest.
use solana_hybrid_pq_account.Base.{◌≡◌, refl, Bytes, length, arith, ==ᵇ_iff}
use solana_hybrid_pq_account.Base.Buffer.{length-write}
use solana_hybrid_pq_account.Base.Layout.{length-zeros}
use solana_hybrid_pq_account.Core.Error.{ok}
use solana_hybrid_pq_account.Core.Intent.{
  Action, transfer_sol, cancel_social_recovery, AuthorizationIntent,
}
use solana_hybrid_pq_account.Core.Canonical.{canonical_preimage, write_body, write_context}
use solana_hybrid_pq_account.Core.Wire.{ExecuteIntentWire, IntentContext, reconstruct_intent}
use solana_hybrid_pq_account.Core.Account.{version, nonce}
use solana_hybrid_pq_account.Core.Account.Slices.{version_from_slice, nonce_from_slice}
use solana_hybrid_pq_account.Program.Runtime.{Runtime, World, AccountInfo}
use solana_hybrid_pq_account.Program.Reconstruct.{digest_canonical_preimage, reconstruct_and_digest}

length-write_body : (a : Action) (out : Bytes) → length (write_body a out) ≡ length out
unfolding write_body
length-write_body (transfer_sol r l) out = simp length-write
length-write_body cancel_social_recovery out = refl
length-write_body _ out = simp length-write

-- The preimage is 172 bytes long, whatever the intent.
pub length-canonical_preimage : (i : AuthorizationIntent) → length (canonical_preimage i) ≡ 172
unfolding canonical_preimage write_context
length-canonical_preimage i = simp (length-write_body, length-write, length-zeros)

module _ (rt : Runtime) (program_id : Bytes) (hybrid : AccountInfo) where
  abbrev pub trusted_context : World → IntentContext
  trusted_context w = record {
    chain_domain = rt.chain_domain;
    program_id = program_id;
    account = hybrid.key;
    nonce = nonce (w hybrid.key).content;
  }

  -- The digest that both schemes must have signed.
  abbrev pub expected_digest : ExecuteIntentWire → World → Bytes
  expected_digest wire w =
      rt.sha256 (canonical_preimage (reconstruct_intent (trusted_context w) wire))

  module _ (wire : ExecuteIntentWire) (w : World) where
    pub digest_canonical_preimage-expected :
        digest_canonical_preimage rt
          (canonical_preimage (reconstruct_intent (trusted_context w) wire))
        ≡ ok (expected_digest wire w)
    unfolding digest_canonical_preimage
    digest_canonical_preimage-expected =
        rw (length-canonical_preimage (reconstruct_intent (trusted_context w) wire))

    -- The digest is computed from the account's own key and nonce and the program's own id and
    -- cluster, and only for an account that this program owns, of the right length and version.
    pub reconstruct_and_digest-expected :
        (found : Bytes × IntentContext)
        → reconstruct_and_digest rt program_id hybrid wire w ≡ ok found
        → ((w hybrid.key).owner ≡ program_id)
          × (length (w hybrid.key).content ≡ 1120)
          × (version (w hybrid.key).content ≡ 1)
          × (found ≡ (expected_digest wire w, trusted_context w))
    unfolding reconstruct_and_digest version_from_slice nonce_from_slice version nonce
    reconstruct_and_digest-expected found h =
        ground (arith, digest_canonical_preimage-expected, ==ᵇ_iff (w hybrid.key).owner program_id)

    pub reconstruct_and_digest_total :
        (w hybrid.key).owner ≡ program_id
        → length (w hybrid.key).content ≡ 1120
        → version (w hybrid.key).content ≡ 1
        → reconstruct_and_digest rt program_id hybrid wire w
          ≡ ok (expected_digest wire w, trusted_context w)
    unfolding reconstruct_and_digest version_from_slice nonce_from_slice version nonce
    reconstruct_and_digest_total owned size v =
        ground (arith, digest_canonical_preimage-expected, ==ᵇ_iff (w hybrid.key).owner program_id)
