-- ===== src/Program/Initialize/Effect.antt =====
-- What a successful initialization requires and leaves in the new account.
use solana_hybrid_pq_account.Base.{
  ℕ, ◌≡◌, ◌≢◌, refl, ap, ◌∙◌, true, some, [], ◌∷◌, Bytes, length, arith, inl, inr, Option-cases,
}
use solana_hybrid_pq_account.Base.Buffer.{slice, byte_at, length-slice}
use solana_hybrid_pq_account.Core.Error.{Result, ok, Result-cases}
use solana_hybrid_pq_account.Core.Policy.{from_u8, is_implemented}
use solana_hybrid_pq_account.Core.Account.{
  initialize, initialize_without_falcon_key, set_prepared_falcon_public_key,
}
use solana_hybrid_pq_account.Core.Account.Created.{fresh, initialize-fresh}
use solana_hybrid_pq_account.Core.Account.Field.{Field, field}
use solana_hybrid_pq_account.Program.Runtime.{
  Runtime, World, Account, AccountInfo, set_content, data_is_empty,
}
use solana_hybrid_pq_account.Program.Runtime.Frames.{set_content_self, set_content_ne}
use solana_hybrid_pq_account.Program.Pda
use solana_hybrid_pq_account.Program.Initialize.{
  Args, parse, create_pda_account, store_prepared_falcon_key, process,
}

parse_facts :
    (payload : Bytes) (args : Args)
    → parse payload ≡ ok args
    → (length payload ≡ 934)
      × (is_implemented args.policy ≡ true)
      × (args.owner_ed25519 ≡ slice 4 32 payload)
unfolding parse
parse_facts payload args h = elim (Option-cases (from_u8 (byte_at 36 payload))) [
  | inl unknown ↦ absurd (ground arith)
  | inr (p, e) ↦ ground arith
]

no_bytes : (bytes : Bytes) → length bytes ≡ 0 → bytes ≡ []
no_bytes [] h = refl
no_bytes (b ∷ bs) h = absurd (omega arith)

empty_content : (a : Account) → data_is_empty a ≡ true → a.content ≡ []
unfolding data_is_empty
empty_content a h = no_bytes a.content (ground arith)

module _ (rt : Runtime) (program_id : Bytes) (creator hybrid system_program : AccountInfo) where
  -- A new account, `w₁` being the accounts behind the calls of the System program.
  pub record Created (args : Args) (w w' : World) : Type 0 where
    pub signed : creator.is_signer ≡ true
    pub implemented : is_implemented args.policy ≡ true
    pub bump : ℕ
    pub canonical : Pda.verify rt program_id creator.key args.account_index hybrid.key ≡ ok bump
    pub was_empty : (w hybrid.key).content ≡ []
    pub w₁ : World
    pub allocated :
        create_pda_account rt program_id creator.key hybrid.key args.account_index bump w ≡ ok w₁
    pub pubkey : Bytes
    pub prepared : Bytes
    pub well_formed : rt.pubkey_from_slice args.falcon_wire_pubkey ≡ some pubkey
    pub prepares : rt.try_prepare_pubkey pubkey ≡ some prepared
    pub fields :
        (f : Field)
        → field f (w' hybrid.key).content
          ≡ fresh bump args.account_index args.owner_ed25519
              (rt.sha256 args.falcon_wire_pubkey)
              prepared
              args.policy
              f
    pub others : (k : Bytes) → k ≢ hybrid.key → w' k ≡ w₁ k

  stored :
      (a key a' : Bytes)
      → store_prepared_falcon_key rt a key ≡ ok a'
      → (pubkey : Bytes) × (prepared : Bytes) × (rt.pubkey_from_slice key ≡ some pubkey)
        × (rt.try_prepare_pubkey pubkey ≡ some prepared)
        × (a' ≡ set_prepared_falcon_public_key prepared a)
  unfolding store_prepared_falcon_key
  stored a key a' h = elim (Option-cases (rt.pubkey_from_slice key)) [
    | inl malformed ↦ absurd (ground arith)
    | inr (pubkey, e) ↦ elim (Option-cases (rt.try_prepare_pubkey pubkey)) [
      | inl malformed ↦ absurd (ground arith)
      | inr (prepared, f) ↦ (pubkey, prepared, e, f, ground arith)
    ]
  ]

  module _ (hash_size : (m : Bytes) → length (rt.sha256 m) ≡ 32)
      (prepared_size : (pubkey prepared : Bytes)
        → rt.try_prepare_pubkey pubkey ≡ some prepared
        → length prepared ≡ 1024)
      (payload : Bytes) (args : Args) (w w' : World) (parsed : parse payload ≡ ok args)
      (h : process rt program_id (creator ∷ hybrid ∷ system_program ∷ []) payload w ≡ ok w') where
    abbrev hash : Bytes
    hash = rt.sha256 args.falcon_wire_pubkey

    abbrev made : World → ℕ → Result Bytes
    made w₁ bump =
        initialize_without_falcon_key (w₁ hybrid.key).content bump args.account_index
          args.owner_ed25519 hash args.policy

    size_of_made :
        (w₁ : World) (bump : ℕ) (a : Bytes)
        → made w₁ bump ≡ ok a
        → length (w₁ hybrid.key).content ≡ 1120
    unfolding initialize_without_falcon_key
    size_of_made w₁ bump a e = ground arith

    fresh_fields :
        (w₁ : World) (bump : ℕ) (a prepared : Bytes)
        → made w₁ bump ≡ ok a
        → length prepared ≡ 1024
        → (f : Field)
        → field f (set_prepared_falcon_public_key prepared a)
          ≡ fresh bump args.account_index args.owner_ed25519 hash prepared args.policy f
    unfolding initialize
    fresh_fields w₁ bump a prepared e size f =
        let (len, im, ow) = parse_facts payload args parsed in
        let owner_size : length args.owner_ed25519 ≡ 32 =
          ap length ow ∙ length-slice 4 32 payload (omega (arith, len)) in
        let (b, made_b, size_b, fields) =
          initialize-fresh bump args.account_index args.owner_ed25519 hash prepared args.policy
            owner_size (hash_size args.falcon_wire_pubkey) size (w₁ hybrid.key).content
            (size_of_made w₁ bump a e) in
        let same : set_prepared_falcon_public_key prepared a ≡ b = ground arith in
        ap (field f) same ∙ fields f

    -- If hashes have 32 bytes and prepared keys 1024: an initialization that succeeds has the
    -- creator's signature, an implemented policy and the canonical address for the creator and the
    -- index, and found the account empty. Every field of the new account is then the given value,
    -- the hash or the prepared form of the given Falcon key, or zero.
    pub process-Created : Created args w w'
    unfolding process
    process-Created =
        elim (Result-cases (Pda.verify rt program_id creator.key args.account_index hybrid.key)) [
          | inr (x, refused) ↦ absurd (ground arith)
          | inl (bump, hv) ↦
              elim (Result-cases (
                create_pda_account rt program_id creator.key hybrid.key args.account_index bump
                  w)) [
                    | inr (x, refused) ↦ absurd (ground arith)
                    | inl (w₁, hc) ↦ elim (Result-cases (made w₁ bump)) [
                      | inr (x, refused) ↦ absurd (ground arith)
                      | inl (a, hm) ↦
                          elim (Result-cases
                            (store_prepared_falcon_key rt a args.falcon_wire_pubkey)) [
                              | inr (x, refused) ↦ absurd (ground arith)
                              | inl (a', hs) ↦
                                  let (pubkey, prepared, hp, hq, ha) =
                                    stored a args.falcon_wire_pubkey a' hs in
                                  let out : w' ≡ set_content hybrid.key a' w₁ = ground arith in
                                  let e : (w' hybrid.key).content ≡ a' =
                                    ap (λ v. (v hybrid.key).content) out
                                    ∙ (set_content_self hybrid.key w₁ a').0 in
                                  record {
                                    signed = ground arith;
                                    implemented = (parse_facts payload args parsed).1;
                                    bump = bump;
                                    canonical = hv;
                                    was_empty = empty_content (w hybrid.key) (ground arith);
                                    w₁ = w₁;
                                    allocated = hc;
                                    pubkey = pubkey;
                                    prepared = prepared;
                                    well_formed = hp;
                                    prepares = hq;
                                    fields = λ f.
                                        ap (field f) (e ∙ ha)
                                        ∙ fresh_fields w₁ bump a prepared hm
                                            (prepared_size pubkey prepared hq) f;
                                    others = λ k q.
                                        ap (λ v. v k) out ∙ set_content_ne hybrid.key w₁ a' k q;
                                  }
                            ]
                    ]
                  ]
        ]
