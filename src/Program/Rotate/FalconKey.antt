-- ===== src/Program/Rotate/FalconKey.antt =====
-- What a rotation of the Falcon key requires and leaves in the account.
use solana_hybrid_pq_account.Base.{
  ℕ, ◌+◌, ◌≡◌, ◌≢◌, sym, ap, ◌∙◌, true, some, [], ◌∷◌, Bytes, length, arith, take, drop, take-All,
  length-drop, inl, inr, Option-cases, ◌==ᵇ◌, ==ᵇ_iff,
}
use solana_hybrid_pq_account.Base.Words.{IsU8, IsU64, IsBytes, from_le_bytes}
use solana_hybrid_pq_account.Core.Error.{DualKeyError, ok, err, Result-cases}
use solana_hybrid_pq_account.Core.Intent.{IsKey, rotate_falcon_key}
use solana_hybrid_pq_account.Core.Wire.{ExecuteIntentWire, decode}
use solana_hybrid_pq_account.Core.Wire.Decoding.{decode-IsAction}
use solana_hybrid_pq_account.Core.Account.{
  try_from_bytes, set_nonce, nonce, set_falcon_public_key_hash, falcon_public_key_hash,
  set_prepared_falcon_public_key, prepared_falcon_public_key,
}
use solana_hybrid_pq_account.Core.Account.Slices.{from_slice-view}
use solana_hybrid_pq_account.Core.Account.Field.{Field, rank, field}
use solana_hybrid_pq_account.Core.Account.Setters.{
  field-set_nonce, field-set_falcon_public_key_hash, field-set_prepared_falcon_public_key,
  length-set_nonce, nonce-set_nonce, nonce-field, falcon_public_key_hash-set_self,
  prepared_falcon_public_key-set_self, length-set_falcon_public_key_hash,
}
use solana_hybrid_pq_account.Program.Runtime.{
  Runtime, World, AccountInfo, set_content, split_at_checked, split_at_checked_lem,
}
use solana_hybrid_pq_account.Program.Runtime.Frames.{set_content_self, set_content_ne}
use solana_hybrid_pq_account.Program.Authorize.{Authorization, authorize}
use solana_hybrid_pq_account.Program.Authorize.Sound.{Authorized, authorize-Authorized}
use solana_hybrid_pq_account.Program.Falcon.{verify_falcon_raw}
use solana_hybrid_pq_account.Program.Rotate.{process_rotate_falcon, apply_falcon_rotation}

-- The account after the three writes of a Falcon rotation.
module _ (hash prepared : Bytes) (n : ℕ) (a : Bytes) where
  abbrev rekeyed : Bytes
  rekeyed =
      set_prepared_falcon_public_key prepared (set_falcon_public_key_hash hash (set_nonce n a))

  rekeyed_lem :
      length a ≡ 1120
      → length hash ≡ 32
      → length prepared ≡ 1024
      → IsU64 n
      → (falcon_public_key_hash rekeyed ≡ hash)
        × (prepared_falcon_public_key rekeyed ≡ prepared)
        × (nonce rekeyed ≡ n)
        × ((f : Field) → rank f ≢ 6 → rank f ≢ 7 → rank f ≢ 10 → field f rekeyed ≡ field f a)
  unfolding falcon_public_key_hash field
  rekeyed_lem size hash_size prepared_size n_fits =
      let b = set_nonce n a in
      let b_size : length b ≡ 1120 = length-set_nonce n a ∙ size in
      let c = set_falcon_public_key_hash hash b in
      let c_size : length c ≡ 1120 = length-set_falcon_public_key_hash hash b ∙ b_size in
      (
        field-set_prepared_falcon_public_key Field.falcon_public_key_hash c prepared prepared_size
              (omega arith)
            ∙ falcon_public_key_hash-set_self b b_size hash hash_size,
        prepared_falcon_public_key-set_self c c_size prepared prepared_size,
        nonce-field rekeyed
            ∙ ap from_le_bytes (
                field-set_prepared_falcon_public_key Field.nonce c prepared prepared_size
                  (omega arith)
                ∙ field-set_falcon_public_key_hash Field.nonce b hash hash_size (omega arith))
            ∙ sym (nonce-field b)
            ∙ nonce-set_nonce a size n n_fits,
        λ f n₆ n₇ n₁₀.
            field-set_prepared_falcon_public_key f c prepared prepared_size n₁₀
            ∙ field-set_falcon_public_key_hash f b hash hash_size n₆
            ∙ field-set_nonce f a n n₇,
      )

-- The parts of the payload of a Falcon rotation.
abbrev falcon_auth : Bytes → Bytes
falcon_auth payload = take 666 (drop 49 payload)

abbrev new_wire_pk : Bytes → Bytes
new_wire_pk payload = take 897 (drop 666 (drop 49 payload))

abbrev falcon_pop : Bytes → Bytes
falcon_pop payload = drop 897 (drop 666 (drop 49 payload))

module _ (rt : Runtime) (program_id : Bytes) (hybrid sysvar : AccountInfo) where
  -- An authorized change of the Falcon key, with proof of possession of the new one.
  pub record FalconRotated (payload hash : Bytes) (wire : ExecuteIntentWire) (w w' : World)
      : Type 0 where
    pub auth : Authorization
    pub authorized : Authorized rt program_id hybrid sysvar wire (falcon_auth payload) w auth
    pub signed_key : rt.sha256 (new_wire_pk payload) ≡ hash
    pub possession :
        verify_falcon_raw rt (new_wire_pk payload) auth.digest (falcon_pop payload) ≡ ok tt
    pub pubkey : Bytes
    pub prepared : Bytes
    pub well_formed : rt.pubkey_from_slice (new_wire_pk payload) ≡ some pubkey
    pub prepares : rt.try_prepare_pubkey pubkey ≡ some prepared
    pub hash_stored : falcon_public_key_hash (w' hybrid.key).content ≡ hash
    pub prepared_stored : prepared_falcon_public_key (w' hybrid.key).content ≡ prepared
    pub next_nonce : nonce (w' hybrid.key).content ≡ nonce (w hybrid.key).content + 1
    pub other_fields :
        (f : Field)
        → rank f ≢ 6
        → rank f ≢ 7
        → rank f ≢ 10
        → field f (w' hybrid.key).content ≡ field f (w hybrid.key).content
    pub others : (k : Bytes) → k ≢ hybrid.key → w' k ≡ w k

  -- How the payload is cut.
  cuts :
      (payload : Bytes)
      → length payload ≡ 2278
      → (split_at_checked 49 payload ≡ some (take 49 payload, drop 49 payload))
        × (split_at_checked 666 (drop 49 payload)
            ≡ some (falcon_auth payload, drop 666 (drop 49 payload)))
        × (split_at_checked 897 (drop 666 (drop 49 payload))
            ≡ some (new_wire_pk payload, falcon_pop payload))
  cuts payload size =
      let l₁ = length-drop 49 payload in
      let l₂ = length-drop 666 (drop 49 payload) in
      (
        split_at_checked_lem 49 payload (omega arith),
        split_at_checked_lem 666 (drop 49 payload) (omega arith),
        split_at_checked_lem 897 (drop 666 (drop 49 payload)) (omega arith),
      )

  -- The steps of the handler, for the parts that the cuts give.
  module _ (payload wire_bytes rest sig rest' pk pop hash : Bytes) (wire : ExecuteIntentWire)
      (w w' : World) (cut₁ : split_at_checked 49 payload ≡ some (wire_bytes, rest))
      (cut₂ : split_at_checked 666 rest ≡ some (sig, rest'))
      (cut₃ : split_at_checked 897 rest' ≡ some (pk, pop)) (d : decode wire_bytes ≡ ok wire)
      (act : wire.action ≡ rotate_falcon_key hash)
      (h : process_rotate_falcon rt program_id (hybrid ∷ sysvar ∷ []) payload w ≡ ok w') where
    falcon_refused :
        (x : DualKeyError) → ¬ (authorize rt program_id hybrid sysvar wire sig w ≡ err x)
    unfolding process_rotate_falcon
    falcon_refused x refused = ground arith

    falcon_steps :
        (auth : Authorization)
        → authorize rt program_id hybrid sysvar wire sig w ≡ ok auth
        → length (w hybrid.key).content ≡ 1120
        → ((rt.sha256 pk ==ᵇ hash) ≡ true)
          × (verify_falcon_raw rt pk auth.digest pop ≡ ok tt)
          × (apply_falcon_rotation rt hybrid pk hash auth w ≡ ok w')
    unfolding process_rotate_falcon
    falcon_steps auth ha size = elim (Result-cases (verify_falcon_raw rt pk auth.digest pop)) [
      | inr (x, refused) ↦ absurd (ground (arith, (from_slice-view (w hybrid.key).content size).6))
      | inl (u, possession) ↦ ground (arith, (from_slice-view (w hybrid.key).content size).6)
    ]

  applied :
      (wire_pk hash : Bytes) (auth : Authorization) (w w' : World)
      → length (w hybrid.key).content ≡ 1120
      → apply_falcon_rotation rt hybrid wire_pk hash auth w ≡ ok w'
      → (pubkey : Bytes) × (prepared : Bytes) × (rt.pubkey_from_slice wire_pk ≡ some pubkey)
        × (rt.try_prepare_pubkey pubkey ≡ some prepared)
        × (w'
            ≡ set_content hybrid.key
                (rekeyed hash prepared auth.next_nonce (w hybrid.key).content)
                w)
  unfolding apply_falcon_rotation try_from_bytes
  applied wire_pk hash auth w w' size h = elim (Option-cases (rt.pubkey_from_slice wire_pk)) [
    | inl malformed ↦ absurd (ground arith)
    | inr (pubkey, e) ↦ elim (Option-cases (rt.try_prepare_pubkey pubkey)) [
      | inl malformed ↦ absurd (ground arith)
      | inr (prepared, f) ↦ (pubkey, prepared, e, f, ground arith)
    ]
  ]

  module _
      (prepared_size : (pubkey prepared : Bytes)
        → rt.try_prepare_pubkey pubkey ≡ some prepared
        → length prepared ≡ 1024)
      (payload hash : Bytes) (wire : ExecuteIntentWire) (w w' : World) (bytes : IsBytes payload)
      (d : decode (take 49 payload) ≡ ok wire) (act : wire.action ≡ rotate_falcon_key hash)
      (h : process_rotate_falcon rt program_id (hybrid ∷ sysvar ∷ []) payload w ≡ ok w') where
    payload_size : length payload ≡ 2278
    unfolding process_rotate_falcon
    payload_size = ground arith

    refused_lem :
        (x : DualKeyError)
        → ¬ (authorize rt program_id hybrid sysvar wire (falcon_auth payload) w ≡ err x)
    refused_lem x refused =
        let (c₁, c₂, c₃) = cuts payload payload_size in
        falcon_refused payload _ _ _ _ _ _ hash wire w w' c₁ c₂ c₃ d act h x refused

    assemble :
        (auth : Authorization)
        → authorize rt program_id hybrid sysvar wire (falcon_auth payload) w ≡ ok auth
        → FalconRotated payload hash wire w w'
    assemble auth ha =
        let a =
          authorize-Authorized rt program_id hybrid sysvar wire (falcon_auth payload) w auth ha in
        let key_range : IsKey hash =
          ground
            (arith, decode-IsAction (take 49 payload) wire (take-All IsU8 49 payload bytes) d) in
        let before = (w hybrid.key).content in
        let (c₁, c₂, c₃) = cuts payload payload_size in
        let (same, pop, st) =
          falcon_steps payload _ _ _ _ _ _ hash wire w w' c₁ c₂ c₃ d act h auth ha a.size in
        let (pubkey, prepared, hp, hq, out) =
          applied (new_wire_pk payload) hash auth w w' a.size st in
        let new = rekeyed hash prepared auth.next_nonce before in
        let e = ap (λ v. (v hybrid.key).content) out ∙ (set_content_self hybrid.key w new).0 in
        let (eh, ep, en, ef) =
          rekeyed_lem hash prepared auth.next_nonce before a.size key_range.0
            (prepared_size pubkey prepared hq) a.next_fits in
        record {
          auth = auth;
          authorized = a;
          signed_key = (==ᵇ_iff (rt.sha256 (new_wire_pk payload)) hash).0 same;
          possession = pop;
          pubkey = pubkey;
          prepared = prepared;
          well_formed = hp;
          prepares = hq;
          hash_stored = ap falcon_public_key_hash e ∙ eh;
          prepared_stored = ap prepared_falcon_public_key e ∙ ep;
          next_nonce = ap nonce e ∙ en ∙ a.next;
          other_fields = λ f n₆ n₇ n₁₀. ap (field f) e ∙ ef f n₆ n₇ n₁₀;
          others = λ k q. ap (λ v. v k) out ∙ set_content_ne hybrid.key w new k q;
        }

    -- If preparing a key gives 1024 bytes: a rotation of the Falcon key that succeeds was
    -- authorized for the hash of exactly the key that it carries, and the new key has signed the
    -- same digest. The account then holds the hash, the prepared form of that key and the next
    -- nonce, keeps every other field, and no other account changes.
    pub process_rotate_falcon-FalconRotated : FalconRotated payload hash wire w w'
    unfolding process_rotate_falcon
    process_rotate_falcon-FalconRotated =
        elim (Result-cases (authorize rt program_id hybrid sysvar wire (falcon_auth payload) w)) [
          | inr (x, refused) ↦ absurd (refused_lem x refused)
          | inl (auth, ha) ↦ assemble auth ha
        ]
