-- ===== src/Client/Onchain/Authorized.antt =====
-- What the client signs and sends is authorized by the program.
use mathlib.Core.Path.{subst}
use solana_hybrid_pq_account.Base.{
  ℕ, ◌+◌, ◌^◌, ◌≤◌, ◌<◌, ◌≡◌, inl, refl, sym, ◌∙◌, some, [], ◌∷◌, ◌++◌, Bytes, length,
  length-append, arith,
}
use solana_hybrid_pq_account.Base.Buffer.{slice, byte_at}
use solana_hybrid_pq_account.Base.Layout.{slice_middle, slice_last, slice-append_left}
use solana_hybrid_pq_account.Base.Words.{to_le_bytes, from_le_bytes}
use solana_hybrid_pq_account.Core.Error
use solana_hybrid_pq_account.Core.Intent
use solana_hybrid_pq_account.Core.Intent.{Action, AuthorizationIntent}
use solana_hybrid_pq_account.Core.Canonical.{canonical_preimage}
use solana_hybrid_pq_account.Core.Policy.{
  AuthorizationPolicy, SignatureRequirement, either, ed25519, falcon, both,
}
use solana_hybrid_pq_account.Core.Wire.{from_intent, reconstruct_intent}
use solana_hybrid_pq_account.Core.Account.{
  version, nonce, policy, falcon_required_above, recovery_enabled, owner_ed25519,
  prepared_falcon_public_key,
}
use solana_hybrid_pq_account.Program.Runtime.{Runtime, World, AccountInfo}
use solana_hybrid_pq_account.Program.Ed25519.Sound.{Names, verify_ed25519_precompile-Names}
use solana_hybrid_pq_account.Program.Falcon.{verify_falcon_prepared}
use solana_hybrid_pq_account.Program.Authorize.{Authorization, authorize, effective_requirement}
use solana_hybrid_pq_account.Program.Authorize.Sound.{
  SignedEd25519, SignedFalcon, Satisfies, Authorized-authorize,
}
use solana_hybrid_pq_account.Program.Reconstruct.Digest.{expected_digest}
use solana_hybrid_pq_account.Client.Crates.{Crates, IsPrecompile}
use solana_hybrid_pq_account.Client.Keys.{Ed25519Keypair, public_bytes}
use solana_hybrid_pq_account.Client.Onchain.{
  default_chain_domain, signing_intent, ed25519_precompile_instruction,
}

-- The header and the offsets of the documented layout, for a message of 32 bytes.
abbrev offsets : Bytes
offsets = 1 ∷ 0 ∷ 48 ∷ 0 ∷ 255 ∷ 255 ∷ 16 ∷ 0 ∷ 255 ∷ 255 ∷ 112 ∷ 0 ∷ 32 ∷ 0 ∷ 255 ∷ 255 ∷ []

offsets-Names :
    (key signature message : Bytes)
    → length key ≡ 32
    → length signature ≡ 64
    → length message ≡ 32
    → Names (offsets ++ key ++ signature ++ message) key message
unfolding slice byte_at from_le_bytes
offsets-Names key signature message k s m =
    let all = offsets ++ key ++ signature ++ message in
    let total : length all ≡ 144 = omega (
      arith,
      length-append (offsets ++ key ++ signature) message,
      length-append (offsets ++ key) signature,
    ) in
    record {
      header = omega arith;
      one_signature = refl;
      no_padding = refl;
      signature_here = refl;
      key_here = refl;
      message_here = refl;
      message_size = refl;
      key_inside = omega arith;
      signature_inside = omega arith;
      message_inside = omega arith;
      key_named =
          slice-append_left (offsets ++ key ++ signature) message 16 32
            (omega (arith, length-append (offsets ++ key) signature, length-append offsets key))
          ∙ slice_middle offsets key signature 16 32 refl (sym k);
      digest_named =
          slice_last (offsets ++ key ++ signature) message 112 32
            (omega (arith, length-append (offsets ++ key) signature, length-append offsets key))
            (sym m);
    }

module _ (rt : Runtime) (c : Crates) where
  precompile-Names :
      (message signature key : Bytes)
      → IsPrecompile rt c
      → length key ≡ 32
      → length signature ≡ 64
      → length message ≡ 32
      → Names (ed25519_precompile_instruction c message signature key).payload key message
  unfolding ed25519_precompile_instruction to_le_bytes
  precompile-Names message signature key p k s m =
      let laid : (c.new_ed25519_instruction_with_signature message signature key).payload
          ≡ offsets ++ key ++ signature ++ message =
        p.layout message signature key ∙ rw m refl in
      subst (λ l. Names l key message) (sym laid) (offsets-Names key signature message k s m)

  -- The situation in which an intent is submitted: the account as the client assumed it, a program
  -- built for the client's cluster, and the precompile instruction right before.
  pub record Ready (ed : Ed25519Keypair) (program_id : Bytes) (hybrid sysvar : AccountInfo)
      (n expiry : ℕ) (action : Action) (sig : Bytes) (w : World) : Type 0 where
    pub precompile : IsPrecompile rt c
    pub cluster : rt.chain_domain ≡ default_chain_domain
    pub owned : (w hybrid.key).owner ≡ program_id
    pub size : length (w hybrid.key).content ≡ 1120
    pub current_version : version (w hybrid.key).content ≡ 1
    pub slot : ℕ
    pub clock : rt.clock_slot ≡ some slot
    pub in_time : slot ≤ expiry
    pub this_nonce : nonce (w hybrid.key).content ≡ n
    pub next_fits : n + 1 < 2 ^ 64
    pub owner_key : owner_ed25519 (w hybrid.key).content ≡ public_bytes c ed
    pub key_size : length (public_bytes c ed) ≡ 32
    pub message : Bytes
    pub message_lem :
        message
        ≡ rt.sha256 (canonical_preimage (signing_intent program_id hybrid.key n expiry action))
    pub message_size : length message ≡ 32
    pub ed_sig_size : length (c.ed25519_sign ed.signing message) ≡ 64
    pub before :
        rt.previous_instruction
        ≡ some (
            ed25519_precompile_instruction c message
              (c.ed25519_sign ed.signing message)
              (public_bytes c ed))
    pub sysvar_key : sysvar.key ≡ rt.instructions_sysvar_id
    pub sig_size : length sig ≡ 666
    pub falcon_accepts :
        verify_falcon_prepared rt (prepared_falcon_public_key (w hybrid.key).content) message sig
        ≡ Error.ok tt
    pub stored_policy : AuthorizationPolicy
    pub policy_read : policy (w hybrid.key).content ≡ Error.ok stored_policy
    pub requirement : SignatureRequirement
    pub effective :
        effective_requirement stored_policy
          (falcon_required_above (w hybrid.key).content)
          (recovery_enabled (w hybrid.key).content)
          action
        ≡ Error.ok requirement

  module _ (ed : Ed25519Keypair) (program_id : Bytes) (hybrid sysvar : AccountInfo) (n expiry : ℕ)
      (action : Action) (sig : Bytes) (w : World)
      (r : Ready ed program_id hybrid sysvar n expiry action sig w) where
    abbrev intent : AuthorizationIntent
    intent = signing_intent program_id hybrid.key n expiry action

    -- The program reconstructs what was signed.
    reconstructed : expected_digest rt program_id hybrid (from_intent intent) w ≡ r.message
    unfolding reconstruct_intent signing_intent from_intent Intent.new
    reconstructed = rw (r.cluster, r.this_nonce, r.message_lem) refl

    signed_ed25519 : SignedEd25519 rt program_id hybrid sysvar (from_intent intent) sig w
    signed_ed25519 =
        let signature = c.ed25519_sign ed.signing r.message in
        let ix = ed25519_precompile_instruction c r.message signature (public_bytes c ed) in
        rw (reconstructed, r.owner_key)
          ((verify_ed25519_precompile-Names rt sysvar (public_bytes c ed) r.message).1 (
            r.sysvar_key,
            ix,
            r.before,
            unfold ed25519_precompile_instruction in
                r.precompile.program_id r.message signature (public_bytes c ed),
            precompile-Names r.message signature (public_bytes c ed) r.precompile r.key_size
                r.ed_sig_size r.message_size,
          ))

    signed_falcon : SignedFalcon rt program_id hybrid sysvar (from_intent intent) sig w
    signed_falcon = rw reconstructed r.falcon_accepts

    satisfied :
        (q : SignatureRequirement)
        → Satisfies rt program_id hybrid sysvar (from_intent intent) sig w q
    satisfied either = inl signed_ed25519
    satisfied ed25519 = signed_ed25519
    satisfied falcon = signed_falcon
    satisfied both = (signed_ed25519, signed_falcon)

    abbrev pub granted : Authorization
    granted = record {
      digest = r.message;
      policy = r.stored_policy;
      account_nonce = n;
      next_nonce = n + 1;
    }

    -- In that situation, whatever the stored policy asks for: the program grants the authorization
    -- of the intent that the client signed, over the client's own digest, and the next nonce is one
    -- more than the client's.
    pub Ready-authorize :
        (auth : Authorization) × (authorize rt program_id hybrid sysvar (from_intent intent) sig w
          ≡ Error.ok auth)
        × (auth.digest ≡ rt.sha256 (canonical_preimage intent))
        × (auth.next_nonce ≡ n + 1)
    unfolding from_intent signing_intent Intent.new
    Ready-authorize = (
      granted,
      Authorized-authorize rt program_id hybrid sysvar (from_intent intent) sig w granted (record {
        sig_size = r.sig_size;
        owned = r.owned;
        size = r.size;
        current_version = r.current_version;
        slot = r.slot;
        clock = r.clock;
        not_expired = r.in_time;
        this_nonce = sym r.this_nonce;
        next = omega (arith, r.this_nonce);
        next_fits = r.next_fits;
        this_policy = r.policy_read;
        signed_digest = sym reconstructed;
        requirement = r.requirement;
        effective = r.effective;
        signatures = satisfied r.requirement;
      }),
      r.message_lem,
      refl,
    )
