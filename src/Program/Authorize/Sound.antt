-- ===== src/Program/Authorize/Sound.antt =====
-- What a successful `authorize` has checked.
use solana_hybrid_pq_account.Base.{
  ℕ, ◌+◌, ◌^◌, ◌≤◌, ◌<◌, ◌≡◌, ◌↔◌, ◌⊎◌, inl, inr, refl, sym, ap, ◌∙◌, true, false, some, Bytes,
  length, arith, Option-cases,
}
use solana_hybrid_pq_account.Core.Error.{ok, is_ok, Result-cases}
use solana_hybrid_pq_account.Core.Wire.{ExecuteIntentWire, IntentContext}
use solana_hybrid_pq_account.Core.Policy.{
  AuthorizationPolicy, SignatureRequirement, either, ed25519, falcon, both,
}
use solana_hybrid_pq_account.Core.Account.{
  version, nonce, policy, falcon_required_above, recovery_enabled, owner_ed25519,
  prepared_falcon_public_key,
}
use solana_hybrid_pq_account.Core.Account.Slices.{from_slice-view}
use solana_hybrid_pq_account.Program.Runtime.{Runtime, World, AccountInfo, checked_add}
use solana_hybrid_pq_account.Program.Ed25519.{verify_ed25519_precompile}
use solana_hybrid_pq_account.Program.Falcon.{verify_falcon_prepared}
use solana_hybrid_pq_account.Program.Evaluate.{SignatureValidity, evaluate_requirement}
use solana_hybrid_pq_account.Program.Reconstruct.{reconstruct_and_digest}
use solana_hybrid_pq_account.Program.Reconstruct.Digest.{
  trusted_context, expected_digest, reconstruct_and_digest-expected, reconstruct_and_digest_total,
}
use solana_hybrid_pq_account.Program.Authorize.{
  Authorization, effective_requirement, collect_ed25519, collect_falcon, collect_signatures,
  authorize,
}

module _ (rt : Runtime) (program_id : Bytes) (hybrid : AccountInfo) where
  module _ (sysvar : AccountInfo) (wire : ExecuteIntentWire) (falcon_sig : Bytes) (w : World) where
    abbrev pub SignedEd25519 : Type 0
    SignedEd25519 =
        verify_ed25519_precompile rt sysvar (owner_ed25519 (w hybrid.key).content)
          (expected_digest rt program_id hybrid wire w)
        ≡ ok tt

    abbrev pub SignedFalcon : Type 0
    SignedFalcon =
        verify_falcon_prepared rt (prepared_falcon_public_key (w hybrid.key).content)
          (expected_digest rt program_id hybrid wire w) falcon_sig
        ≡ ok tt

    -- The signatures that a requirement asks for, by the verifiers on the account's own keys.
    abbrev pub Satisfies : SignatureRequirement → Type 0
    Satisfies ed25519 = SignedEd25519
    Satisfies falcon = SignedFalcon
    Satisfies both = SignedEd25519 × SignedFalcon
    Satisfies either = SignedEd25519 ⊎ SignedFalcon

    pub record Authorized (auth : Authorization) : Type 0 where
      pub sig_size : length falcon_sig ≡ 666
      pub owned : (w hybrid.key).owner ≡ program_id
      pub size : length (w hybrid.key).content ≡ 1120
      pub current_version : version (w hybrid.key).content ≡ 1
      pub slot : ℕ
      pub clock : rt.clock_slot ≡ some slot
      pub not_expired : slot ≤ wire.expiry_slot
      pub this_nonce : auth.account_nonce ≡ nonce (w hybrid.key).content
      pub next : auth.next_nonce ≡ nonce (w hybrid.key).content + 1
      pub next_fits : auth.next_nonce < 2 ^ 64
      pub this_policy : policy (w hybrid.key).content ≡ ok auth.policy
      pub signed_digest : auth.digest ≡ expected_digest rt program_id hybrid wire w
      pub requirement : SignatureRequirement
      pub effective :
          effective_requirement auth.policy
            (falcon_required_above (w hybrid.key).content)
            (recovery_enabled (w hybrid.key).content)
            wire.action
          ≡ ok requirement
      pub signatures : Satisfies requirement

    -- What `collect_signatures` and the evaluation of the requirement establish together.
    collected :
        (req : SignatureRequirement) (sigs : SignatureValidity)
        → collect_signatures rt req sysvar
            (owner_ed25519 (w hybrid.key).content)
            (prepared_falcon_public_key (w hybrid.key).content)
            (expected_digest rt program_id hybrid wire w)
            falcon_sig
          ≡ ok sigs
        → evaluate_requirement req sigs ≡ ok tt
        → Satisfies req
    unfolding collect_signatures collect_ed25519 collect_falcon evaluate_requirement
    collected ed25519 sigs c e = ground arith
    collected falcon sigs c e = ground arith
    collected both sigs c e = ground arith
    collected either sigs c e = ground arith

    -- The steps behind the reconstruction, from the facts that it has established.
    module _ (auth : Authorization)
        (h : authorize rt program_id hybrid sysvar wire falcon_sig w ≡ ok auth)
        (found : Bytes × IntentContext)
        (e : reconstruct_and_digest rt program_id hybrid wire w ≡ ok found)
        (owned : (w hybrid.key).owner ≡ program_id) (size : length (w hybrid.key).content ≡ 1120)
        (v : version (w hybrid.key).content ≡ 1)
        (same : found
          ≡ (expected_digest rt program_id hybrid wire w, trusted_context rt program_id hybrid w))
        (slot : ℕ) (clock : rt.clock_slot ≡ some slot) where
      abbrev content : Bytes
      content = (w hybrid.key).content

      signed :
          (p : AuthorizationPolicy) (req : SignatureRequirement) (sigs : SignatureValidity)
          → policy content ≡ ok p
          → effective_requirement p
              (falcon_required_above content)
              (recovery_enabled content)
              wire.action
            ≡ ok req
          → collect_signatures rt req sysvar
              (owner_ed25519 content)
              (prepared_falcon_public_key content)
              (expected_digest rt program_id hybrid wire w)
              falcon_sig
            ≡ ok sigs
          → Authorized auth
      unfolding authorize
      signed p req sigs hp hr hs =
          let evaluated : evaluate_requirement req sigs ≡ ok tt =
            ground (arith, from_slice-view content size) in
          let result : auth ≡ record {
            digest = expected_digest rt program_id hybrid wire w;
            policy = p;
            account_nonce = nonce content;
            next_nonce = nonce content + 1;
          } =
            unfold checked_add in ground (arith, from_slice-view content size) in
          record {
            sig_size = ground arith;
            owned = owned;
            size = size;
            current_version = v;
            slot = slot;
            clock = clock;
            not_expired = ground (arith, from_slice-view content size);
            this_nonce = ap (λ a. a.account_nonce) result;
            next = ap (λ a. a.next_nonce) result;
            next_fits = unfold checked_add in ground (arith, from_slice-view content size);
            this_policy = hp ∙ ap (λ a. ok a.policy) (sym result);
            signed_digest = ap (λ a. a.digest) result;
            requirement = req;
            effective = rw (ap (λ a. a.policy) result) hr;
            signatures = collected req sigs hs evaluated;
          }

      checked : Authorized auth
      unfolding authorize
      checked = elim (Result-cases (policy content)) [
        | inr (x, refused) ↦ absurd (ground (arith, from_slice-view content size))
        | inl (p, hp) ↦
            elim (Result-cases (
              effective_requirement p (falcon_required_above content) (recovery_enabled content)
                wire.action)) [
                  | inr (x, refused) ↦ absurd (ground (arith, from_slice-view content size))
                  | inl (req, hr) ↦
                      elim (Result-cases (
                        collect_signatures rt req sysvar (owner_ed25519 content)
                          (prepared_falcon_public_key content)
                          (expected_digest rt program_id hybrid wire w) falcon_sig)) [
                            | inr (x, refused) ↦
                                absurd (ground (arith, from_slice-view content size))
                            | inl (sigs, hs) ↦ signed p req sigs hp hr hs
                          ]
                ]
      ]

    pub authorize-Authorized :
        (auth : Authorization)
        → authorize rt program_id hybrid sysvar wire falcon_sig w ≡ ok auth
        → Authorized auth
    unfolding authorize
    authorize-Authorized auth h =
        elim (Result-cases (reconstruct_and_digest rt program_id hybrid wire w)) [
          | inr (x, refused) ↦ absurd (ground arith)
          | inl (found, e) ↦
              let (owned, size, v, same) =
                reconstruct_and_digest-expected rt program_id hybrid wire w found e in
              elim (Option-cases rt.clock_slot) [
                | inl none_e ↦ absurd (ground arith)
                | inr (slot, clock) ↦ checked auth h found e owned size v same slot clock
              ]
        ]

    -- The converse of `collected`.
    collects :
        (req : SignatureRequirement)
        → Satisfies req
        → (sigs : SignatureValidity) × (collect_signatures rt req sysvar
              (owner_ed25519 (w hybrid.key).content)
              (prepared_falcon_public_key (w hybrid.key).content)
              (expected_digest rt program_id hybrid wire w)
              falcon_sig
            ≡ ok sigs)
          × (evaluate_requirement req sigs ≡ ok tt)
    unfolding collect_signatures collect_ed25519 collect_falcon evaluate_requirement
    collects ed25519 s = (record { ed25519_valid = true; falcon_valid = false }, ground arith, refl)
    collects falcon s = (record { ed25519_valid = false; falcon_valid = true }, ground arith, refl)
    collects both s = (record { ed25519_valid = true; falcon_valid = true }, ground arith, refl)
    collects either s = (
      record {
        ed25519_valid = is_ok (
            verify_ed25519_precompile rt sysvar (owner_ed25519 (w hybrid.key).content)
              (expected_digest rt program_id hybrid wire w));
        falcon_valid = is_ok (
            verify_falcon_prepared rt (prepared_falcon_public_key (w hybrid.key).content)
              (expected_digest rt program_id hybrid wire w) falcon_sig);
      },
      refl,
      ground arith,
    )

    pub Authorized-authorize :
        (auth : Authorization)
        → Authorized auth
        → authorize rt program_id hybrid sysvar wire falcon_sig w ≡ ok auth
    unfolding authorize checked_add
    Authorized-authorize auth a =
        let (sigs, hs, evaluated) = collects a.requirement a.signatures in
        ground (
          arith,
          from_slice-view (w hybrid.key).content a.size,
          reconstruct_and_digest_total rt program_id hybrid wire w a.owned a.size a.current_version,
          hs,
          evaluated,
          a.effective,
        )

    -- An authorization succeeds with a result if and only if: the given Falcon signature has 666
    -- bytes; the account is the program's, with the length and the version of a hybrid account; the
    -- clock can be read and has not passed the expiry slot; the result holds
    -- the account's nonce, the next one, which has not wrapped, its policy, and the digest of the
    -- intent that the account's own key and nonce give; and the signatures that the effective
    -- requirement asks for are there, over this digest.
    pub authorize_iff :
        (auth : Authorization)
        → (authorize rt program_id hybrid sysvar wire falcon_sig w ≡ ok auth) ↔ Authorized auth
    authorize_iff auth = (authorize-Authorized auth, Authorized-authorize auth)
