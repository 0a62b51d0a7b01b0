-- ===== src/Client/Onchain/Created.antt =====
-- The program reads an `Initialize` instruction of the client as it was meant.
use mathlib.Core.Path.{subst}
use solana_hybrid_pq_account.Base.{
  ℕ, ◌≡◌, refl, sym, ap, ◌∙◌, true, some, List, ◌∷◌, ◌++◌, Bytes, length, length-append, drop,
  ==ᵇ_refl, arith,
}
use solana_hybrid_pq_account.Base.Buffer.{slice, byte_at}
use solana_hybrid_pq_account.Base.Layout.{
  slice_first, slice_middle, slice_whole, slice-append_left, slice-append_right,
  byte_at-append_right,
}
use solana_hybrid_pq_account.Base.Words.{
  IsU32, to_le_bytes, from_le_bytes, length-to_le_bytes, from_le_bytes-to_le_bytes,
}
use solana_hybrid_pq_account.Core.Error
use solana_hybrid_pq_account.Core.Policy.{AuthorizationPolicy, as_u8, is_implemented}
use solana_hybrid_pq_account.Core.Policy.Laws.{from_u8-as_u8}
use solana_hybrid_pq_account.Program.Runtime.{Runtime, World, Instruction, AccountInfo}
use solana_hybrid_pq_account.Program.Pda.{verify}
use solana_hybrid_pq_account.Program.Instruction
use solana_hybrid_pq_account.Program.Processor.{dispatch, process}
use solana_hybrid_pq_account.Program.Initialize
use solana_hybrid_pq_account.Program.Initialize.{Args, parse}
use solana_hybrid_pq_account.Client.Error.{ok, >>=-eq-ok, ok-injective}
use solana_hybrid_pq_account.Client.Onchain.{
  initialize_data, initialize_instruction, derive_hybrid_account,
}

initialize_code : Instruction.from_u8 0 ≡ some Instruction.initialize
unfolding Instruction.from_u8
initialize_code = refl

skip_one : (b : ℕ) (bs : Bytes) → slice 1 897 (b ∷ bs) ≡ slice 0 897 bs
unfolding slice
skip_one b bs = refl

module _ (account_index : ℕ) (owner : Bytes) (policy : AuthorizationPolicy) (pk : Bytes) where
  abbrev args : Args
  args = record {
    account_index = account_index;
    owner_ed25519 = owner;
    policy = policy;
    falcon_wire_pubkey = pk;
  }

  abbrev body : Bytes
  body = to_le_bytes 4 account_index ++ owner ++ as_u8 policy ∷ pk

  parse-body :
      IsU32 account_index
      → length owner ≡ 32
      → length pk ≡ 897
      → is_implemented policy ≡ true
      → parse body ≡ Error.ok args
  unfolding parse
  parse-body small size keyed known =
      let index = to_le_bytes 4 account_index in
      let n = length-to_le_bytes 4 account_index in
      let front : length (index ++ owner) ≡ 36 = omega (arith, length-append index owner) in
      let total : length body ≡ 934 =
        omega (arith, length-append (index ++ owner) (as_u8 policy ∷ pk)) in
      let at : byte_at 36 body ≡ as_u8 policy =
        byte_at-append_right (index ++ owner) (as_u8 policy) pk 36 (sym front) in
      let first : slice 0 4 body ≡ index =
        slice-append_left (index ++ owner) (as_u8 policy ∷ pk) 0 4 (omega arith)
        ∙ slice_first index owner 4 (sym n) in
      let second : slice 4 32 body ≡ owner =
        slice_middle index owner (as_u8 policy ∷ pk) 4 32 (sym n) (sym size) in
      let third : slice 37 897 body ≡ pk =
        slice-append_right (index ++ owner) (as_u8 policy ∷ pk) 37 1 897 (omega arith)
        ∙ skip_one (as_u8 policy) pk
        ∙ slice_whole pk 897 (sym keyed) in
      ground (
        arith,
        total,
        at,
        ap from_le_bytes first ∙ from_le_bytes-to_le_bytes 4 account_index (omega arith),
        second,
        third,
        (from_u8-as_u8 policy 0).0,
      )

  data-body :
      (bytes : Bytes)
      → initialize_data account_index owner policy pk ≡ ok bytes
      → (bytes ≡ 0 ∷ body) × (length pk ≡ 897) × (is_implemented policy ≡ true)
  unfolding initialize_data
  data-body bytes h = ground arith

  -- What an instruction for `Initialize` gives the program, which derives the address again.
  module _ (rt : Runtime) (program_id creator : Bytes) where
    derived :
        (found : Bytes × ℕ)
        → derive_hybrid_account rt program_id creator account_index ≡ ok found
        → verify rt program_id creator account_index found.0 ≡ Error.ok found.1
    unfolding derive_hybrid_account verify
    derived found h = ground (arith, ==ᵇ_refl found.0)

    -- The program takes the instruction to `Initialize`, reads the index, the owner, the policy
    -- and the Falcon key that were given, and finds the address and bump that the client derived.
    pub initialize_instruction-process :
        (ix : Instruction) (hybrid : Bytes) (bump : ℕ) (accounts : List AccountInfo) (w : World)
        → IsU32 account_index
        → length owner ≡ 32
        → initialize_instruction rt program_id creator account_index owner policy pk
          ≡ ok (ix, hybrid, bump)
        → (process rt program_id accounts ix.payload w
            ≡ Initialize.process rt program_id accounts (drop 1 ix.payload) w)
          × (parse (drop 1 ix.payload) ≡ Error.ok args)
          × (verify rt program_id creator account_index hybrid ≡ Error.ok bump)
    unfolding process initialize_instruction dispatch
    initialize_instruction-process ix hybrid bump accounts w small size e =
        let (found, ef, e₁) =
          >>=-eq-ok (derive_hybrid_account rt program_id creator account_index) _ e in
        let (bytes, eb, e₂) = >>=-eq-ok (initialize_data account_index owner policy pk) _ e₁ in
        let (p, a, b) : (ix.payload ≡ bytes) × (found.0 ≡ hybrid) × (found.1 ≡ bump) =
          let f = ok-injective e₂ in
          (ap (λ x. x.0.payload) (sym f), ap (λ x. x.1) f, ap (λ x. x.2) f) in
        let (shape, keyed, known) = data-body bytes eb in
        let cut : drop 1 ix.payload ≡ body = ap (drop 1) (p ∙ shape) in
        (
          ground (arith, p, shape, initialize_code),
          ap parse cut ∙ parse-body small size keyed known,
          subst (λ k. verify rt program_id creator account_index k ≡ Error.ok bump) a
              (derived found ef ∙ ap Error.ok b),
        )
