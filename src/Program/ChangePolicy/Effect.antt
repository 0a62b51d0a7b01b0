-- ===== src/Program/ChangePolicy/Effect.antt =====
-- What a change of policy leaves in the account.
use mathlib.Core.Option.{get_or}
use Prim.Native.Nat.{bit_and}
use solana_hybrid_pq_account.Base.{
  ℕ, ◌+◌, ◌≡◌, ◌≢◌, sym, ap, ◌∙◌, not, ◌==◌, true, Option, some, [], ◌∷◌, Bytes, length, arith,
  take, drop, take-All, inl, inr, Option-cases,
}
use solana_hybrid_pq_account.Base.Buffer.{byte_at}
use solana_hybrid_pq_account.Base.Layout.{byte_at-IsU8}
use solana_hybrid_pq_account.Base.Words.{IsU8, IsU64, IsBytes, from_le_bytes}
use solana_hybrid_pq_account.Core.Error.{ok, ok_or, invalid_account_data, Result-cases}
use solana_hybrid_pq_account.Core.Intent.{change_policy}
use solana_hybrid_pq_account.Core.Wire.{ExecuteIntentWire, decode}
use solana_hybrid_pq_account.Core.Wire.Decoding.{decode-IsAction}
use solana_hybrid_pq_account.Core.Policy.{AuthorizationPolicy, from_u8, is_implemented}
use solana_hybrid_pq_account.Core.Account.{
  try_from_bytes, set_nonce, nonce, set_policy, policy, set_falcon_required_above,
  falcon_required_above, recovery_enabled, flags, flag_recovery_enabled,
}
use solana_hybrid_pq_account.Core.Account.Slices.{from_slice-view}
use solana_hybrid_pq_account.Core.Account.Field.{Field, rank, field}
use solana_hybrid_pq_account.Core.Account.Initialize.{set_falcon_required_above_lem}
use solana_hybrid_pq_account.Core.Account.Setters.{
  field-set_nonce, field-set_policy, field-set_falcon_required_above, length-set_nonce,
  length-set_policy, nonce-set_nonce, policy-set_policy, nonce-field, policy-field, flags-field,
}
use solana_hybrid_pq_account.Program.Runtime.{Runtime, World, AccountInfo, set_content}
use solana_hybrid_pq_account.Program.Runtime.Frames.{set_content_self, set_content_ne}
use solana_hybrid_pq_account.Program.Authorize.{
  Authorization, authorize, split_wire_and_falcon, split_wire_and_falcon_lem, resulting_threshold,
}
use solana_hybrid_pq_account.Program.Authorize.Sound.{Authorized, authorize-Authorized}
use solana_hybrid_pq_account.Program.ChangePolicy.{apply_policy_change, process}

-- The account after the three writes of `apply_policy_change`.
module _ (target : AuthorizationPolicy) (t : Option ℕ) (n : ℕ) (a : Bytes) where
  abbrev with_nonce : Bytes
  with_nonce = set_nonce n a

  abbrev with_policy : Bytes
  with_policy = set_policy target with_nonce

  abbrev changed : Bytes
  changed = set_falcon_required_above t with_policy

  module _ (size : length a ≡ 1120) (byte : IsU8 (flags a)) (n_fits : IsU64 n)
      (t_fits : IsU64 (get_or t 0)) where
    nonce_size : length with_nonce ≡ 1120
    nonce_size = length-set_nonce n a ∙ size

    policy_size : length with_policy ≡ 1120
    policy_size = length-set_policy target with_nonce ∙ nonce_size

    same_flags : flags with_policy ≡ flags a
    same_flags =
        flags-field with_policy
        ∙ ap (byte_at 0) (
            field-set_policy Field.flags with_nonce target (omega arith)
            ∙ field-set_nonce Field.flags a n (omega arith))
        ∙ sym (flags-field a)

    pub changed_lem :
        (policy changed ≡ ok target)
        × (falcon_required_above changed ≡ t)
        × (nonce changed ≡ n)
        × (recovery_enabled changed ≡ recovery_enabled a)
        × ((f : Field)
            → rank f ≢ 2
            → rank f ≢ 3
            → rank f ≢ 7
            → rank f ≢ 8
            → field f changed ≡ field f a)
    unfolding recovery_enabled
    changed_lem =
        let (th, re) =
          set_falcon_required_above_lem with_policy policy_size (omega (arith, byte, same_flags)) t
            t_fits in
        (
          policy-field changed
              ∙ ap (λ v. ok_or (from_u8 (byte_at 0 v)) invalid_account_data)
                  (field-set_falcon_required_above Field.policy t with_policy (omega arith)
                    (omega arith))
              ∙ sym (policy-field with_policy)
              ∙ policy-set_policy with_nonce nonce_size target,
          th,
          nonce-field changed
              ∙ ap from_le_bytes (
                  field-set_falcon_required_above Field.nonce t with_policy (omega arith)
                    (omega arith)
                  ∙ field-set_policy Field.nonce with_nonce target (omega arith))
              ∙ sym (nonce-field with_nonce)
              ∙ nonce-set_nonce a size n n_fits,
          re ∙ ap (λ b. not (bit_and b flag_recovery_enabled == 0)) same_flags,
          λ f n₂ n₃ n₇ n₈.
              field-set_falcon_required_above f t with_policy n₃ n₈
              ∙ field-set_policy f with_nonce target n₂
              ∙ field-set_nonce f a n n₇,
        )

module _ (rt : Runtime) (program_id : Bytes) (hybrid sysvar : AccountInfo) where
  -- A policy that was changed under authorization.
  pub record PolicyChanged (wire : ExecuteIntentWire) (falcon_sig : Bytes)
      (new_policy threshold : ℕ) (w w' : World) : Type 0 where
    pub auth : Authorization
    pub authorized : Authorized rt program_id hybrid sysvar wire falcon_sig w auth
    pub target : AuthorizationPolicy
    pub known : from_u8 new_policy ≡ some target
    pub implemented : is_implemented target ≡ true
    pub new_policy_stored : policy (w' hybrid.key).content ≡ ok target
    pub new_threshold_stored :
        falcon_required_above (w' hybrid.key).content ≡ resulting_threshold target threshold
    pub next_nonce : nonce (w' hybrid.key).content ≡ nonce (w hybrid.key).content + 1
    pub recovery_kept :
        recovery_enabled (w' hybrid.key).content ≡ recovery_enabled (w hybrid.key).content
    pub other_fields :
        (f : Field)
        → rank f ≢ 2
        → rank f ≢ 3
        → rank f ≢ 7
        → rank f ≢ 8
        → field f (w' hybrid.key).content ≡ field f (w hybrid.key).content
    pub lamports_kept : (w' hybrid.key).lamports ≡ (w hybrid.key).lamports
    pub others : (k : Bytes) → k ≢ hybrid.key → w' k ≡ w k

  module _ (wire : ExecuteIntentWire) (new_policy threshold : ℕ) (payload : Bytes) (w w' : World)
      (bytes : IsBytes payload) (content_bytes : IsBytes (w hybrid.key).content)
      (d : decode (take 49 payload) ≡ ok wire)
      (act : wire.action ≡ change_policy new_policy threshold)
      (h : process rt program_id (hybrid ∷ sysvar ∷ []) payload w ≡ ok w') where
    abbrev before : Bytes
    before = (w hybrid.key).content

    cut : split_wire_and_falcon payload ≡ ok (take 49 payload, drop 49 payload)
    unfolding process
    cut = split_wire_and_falcon_lem payload (ground arith)

    steps :
        (auth : Authorization) (target current : AuthorizationPolicy)
        → authorize rt program_id hybrid sysvar wire (drop 49 payload) w ≡ ok auth
        → from_u8 new_policy ≡ some target
        → policy before ≡ ok current
        → length before ≡ 1120
        → (is_implemented target ≡ true)
          × (apply_policy_change hybrid target (resulting_threshold target threshold) auth w
              ≡ ok w')
    unfolding process
    steps auth target current ha known hc size =
        ground (arith, cut, (from_slice-view before size).1, (from_slice-view before size).5)

    threshold_fits :
        (target : AuthorizationPolicy) → IsU64 (get_or (resulting_threshold target threshold) 0)
    unfolding resulting_threshold
    threshold_fits target =
        ground (arith, decode-IsAction (take 49 payload) wire (take-All IsU8 49 payload bytes) d)

    assemble :
        (auth : Authorization) (target : AuthorizationPolicy)
        → authorize rt program_id hybrid sysvar wire (drop 49 payload) w ≡ ok auth
        → from_u8 new_policy ≡ some target
        → PolicyChanged wire (drop 49 payload) new_policy threshold w w'
    unfolding apply_policy_change try_from_bytes flags
    assemble auth target ha known =
        let a = authorize-Authorized rt program_id hybrid sysvar wire (drop 49 payload) w auth ha in
        let t = resulting_threshold target threshold in
        let (im, applied) = steps auth target auth.policy ha known a.this_policy a.size in
        let new = changed target t auth.next_nonce before in
        let out : w' ≡ set_content hybrid.key new w = ground (arith, a.size) in
        let (c, l, o) = set_content_self hybrid.key w new in
        let e : (w' hybrid.key).content ≡ new = ap (λ v. (v hybrid.key).content) out ∙ c in
        let (p, th, n, re, f) =
          changed_lem target t auth.next_nonce before a.size (byte_at-IsU8 3 before content_bytes)
            a.next_fits (threshold_fits target) in
        record {
          auth = auth;
          authorized = a;
          target = target;
          known = known;
          implemented = im;
          new_policy_stored = ap policy e ∙ p;
          new_threshold_stored = ap falcon_required_above e ∙ th;
          next_nonce = ap nonce e ∙ n ∙ a.next;
          recovery_kept = ap recovery_enabled e ∙ re;
          other_fields = λ g n₂ n₃ n₇ n₈. ap (field g) e ∙ f g n₂ n₃ n₇ n₈;
          lamports_kept = ap (λ v. (v hybrid.key).lamports) out ∙ l;
          others = λ j q. ap (λ v. v j) out ∙ set_content_ne hybrid.key w new j q;
        }

    -- A policy change that succeeds was authorized, for a known and implemented policy; the
    -- account then holds that policy and the threshold that it uses, and the next nonce, and keeps
    -- its recovery flag, every other field and its lamports, and no other account changes.
    pub process-PolicyChanged : PolicyChanged wire (drop 49 payload) new_policy threshold w w'
    unfolding process
    process-PolicyChanged = elim (Option-cases (from_u8 new_policy)) [
      | inl unknown ↦ absurd (ground (arith, cut))
      | inr (target, known) ↦
          elim (Result-cases (authorize rt program_id hybrid sysvar wire (drop 49 payload) w)) [
            | inr (x, refused) ↦ absurd (ground (arith, cut))
            | inl (auth, ha) ↦ assemble auth target ha known
          ]
    ]
