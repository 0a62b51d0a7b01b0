-- ===== src/Program/Replay.antt =====
-- What was signed for one authorization is worth nothing for a later one.
use solana_hybrid_pq_account.Base.{◌≡◌, ◌≢◌, ◌≤◌, ap, arith, Bytes}
use solana_hybrid_pq_account.Core.Error.{ok}
use solana_hybrid_pq_account.Base.Words.{IsU64}
use solana_hybrid_pq_account.Core.Intent
use solana_hybrid_pq_account.Core.Intent.{IsIntent, IsKey, IsAction}
use solana_hybrid_pq_account.Core.Wire.{ExecuteIntentWire, reconstruct_intent}
use solana_hybrid_pq_account.Core.Canonical.{canonical_preimage}
use solana_hybrid_pq_account.Core.Canonical.Injective.{canonical_preimage-injective}
use solana_hybrid_pq_account.Core.Account.{nonce}
use solana_hybrid_pq_account.Program.Runtime.{Runtime, World, AccountInfo}
use solana_hybrid_pq_account.Program.Authorize.{Authorization, authorize}
use solana_hybrid_pq_account.Program.Authorize.Sound.{authorize-Authorized}
use solana_hybrid_pq_account.Program.Reconstruct.Digest.{trusted_context}

module _ (rt : Runtime) (program_id : Bytes) (hybrid : AccountInfo) where
  -- The message of the fragment's action for this account, at the account's own nonce.
  abbrev pub message : ExecuteIntentWire → World → Bytes
  message wire w = canonical_preimage (
      Intent.new rt.chain_domain program_id hybrid.key (nonce (w hybrid.key).content)
        wire.expiry_slot wire.action)

  ranges :
      (wire : ExecuteIntentWire) (w : World)
      → IsKey rt.chain_domain
      → IsKey program_id
      → IsKey hybrid.key
      → IsU64 (nonce (w hybrid.key).content)
      → IsU64 wire.expiry_slot
      → IsAction wire.action
      → IsIntent (reconstruct_intent (trusted_context rt program_id hybrid w) wire)
  unfolding reconstruct_intent
  ranges wire w c p k n e a = record {
    version_range = omega arith;
    chain_domain_range = c;
    program_id_range = p;
    account_range = k;
    nonce_range = n;
    expiry_slot_range = e;
    action_range = a;
  }

  message-after-nonce :
      (wire wire' : ExecuteIntentWire) (w w' : World)
      → IsKey rt.chain_domain
      → IsKey program_id
      → IsKey hybrid.key
      → IsU64 (nonce (w hybrid.key).content)
      → IsU64 (nonce (w' hybrid.key).content)
      → IsU64 wire.expiry_slot × IsAction wire.action
      → IsU64 wire'.expiry_slot × IsAction wire'.action
      → nonce (w hybrid.key).content ≢ nonce (w' hybrid.key).content
      → message wire w ≢ message wire' w'
  unfolding reconstruct_intent Intent.new
  message-after-nonce wire wire' w w' c p k n n' a a' ne e = ne (
      ap (λ i. i.nonce)
        (canonical_preimage-injective
          (reconstruct_intent (trusted_context rt program_id hybrid w) wire)
          (reconstruct_intent (trusted_context rt program_id hybrid w') wire')
          (ranges wire w c p k n a.0 a.1) (ranges wire' w' c p k n' a'.0 a'.1) e))

  -- Once an account has been authorized and its nonce is the next one or a later one, a second
  -- authorization on it, whatever its fragment, its signature and the rest of the state, is over the
  -- hash of another message than the first: each digest is the hash of the message of the intent with
  -- the nonce that the account has at the time, and the two messages differ. The ids of the cluster,
  -- the program and the account are keys, and the fragments hold what their encoding can hold.
  pub authorize-never-replayed :
      (sysvar sysvar' : AccountInfo) (wire wire' : ExecuteIntentWire) (sig sig' : Bytes)
      (w w' : World) (auth auth' : Authorization)
      → IsKey rt.chain_domain
      → IsKey program_id
      → IsKey hybrid.key
      → IsU64 wire.expiry_slot × IsAction wire.action
      → IsU64 wire'.expiry_slot × IsAction wire'.action
      → authorize rt program_id hybrid sysvar wire sig w ≡ ok auth
      → auth.next_nonce ≤ nonce (w' hybrid.key).content
      → authorize rt program_id hybrid sysvar' wire' sig' w' ≡ ok auth'
      → (auth.digest ≡ rt.sha256 (message wire w))
        × (auth'.digest ≡ rt.sha256 (message wire' w'))
        × (message wire w ≢ message wire' w')
  unfolding reconstruct_intent Intent.new
  authorize-never-replayed sysvar sysvar' wire wire' sig sig' w w' auth auth' c p k a a' h later
        h' =
      let first = authorize-Authorized rt program_id hybrid sysvar wire sig w auth h in
      let second = authorize-Authorized rt program_id hybrid sysvar' wire' sig' w' auth' h' in
      (
        first.signed_digest,
        second.signed_digest,
        message-after-nonce wire wire' w w' c p k (omega (arith, first.next, first.next_fits))
            (omega (arith, second.next, second.next_fits)) a a'
            (λ same. absurd (omega (arith, same, first.next, later))),
      )
