-- ===== src/Program/SplToken/Transfer.antt =====
-- What a token transfer has checked when it invokes the token program.
use solana_hybrid_pq_account.Base.{
  ℕ, ◌≤◌, ◌≡◌, ◌≢◌, ◌⊎◌, inl, inr, sym, ap, ◌∙◌, true, false, List, [], ◌∷◌, Bytes, length, arith,
  ◌==ᵇ◌, ==ᵇ_iff, Bool-cases, Option-cases, some, ◌==◌,
}
use solana_hybrid_pq_account.Base.Buffer.{slice, byte_at}
use solana_hybrid_pq_account.Base.Words.{from_le_bytes}
use solana_hybrid_pq_account.Core.Error.{ok, Result-cases}
use solana_hybrid_pq_account.Core.Account.{account_index}
use solana_hybrid_pq_account.Core.Account.Slices.{from_slice-view}
use solana_hybrid_pq_account.Program.Runtime.{Runtime, World, token_instruction}
use solana_hybrid_pq_account.Program.Pda.{signer_seeds}
use solana_hybrid_pq_account.Program.SplToken.{
  TransferSplAccounts, transfer_spl, check_source, check_destination, mint_decimals,
  reject_if_transfer_hook, transfer_checked_instruction, is_supported_token_program,
}

source_facts :
    (bytes mint owner : Bytes) (amount : ℕ)
    → check_source bytes mint owner amount ≡ ok tt
    → (slice 0 32 bytes ≡ mint)
      × (slice 32 32 bytes ≡ owner)
      × (amount ≤ from_le_bytes (slice 64 8 bytes))
      × (reject_if_transfer_hook bytes 165 ≡ ok tt)
      × (165 ≤ length bytes)
unfolding check_source
source_facts bytes mint owner amount h = elim (Result-cases (reject_if_transfer_hook bytes 165)) [
  | inr (x, refused) ↦ absurd (ground arith)
  | inl (u, e) ↦ ground (arith, ==ᵇ_iff (slice 0 32 bytes) mint, ==ᵇ_iff (slice 32 32 bytes) owner)
]

destination_facts :
    (bytes mint : Bytes)
    → check_destination bytes mint ≡ ok tt
    → (slice 0 32 bytes ≡ mint) × (reject_if_transfer_hook bytes 165 ≡ ok tt) × (165 ≤ length bytes)
unfolding check_destination
destination_facts bytes mint h = elim (Result-cases (reject_if_transfer_hook bytes 165)) [
  | inr (x, refused) ↦ absurd (ground arith)
  | inl (u, e) ↦ ground (arith, ==ᵇ_iff (slice 0 32 bytes) mint)
]

decimals_facts :
    (bytes : Bytes) (d : ℕ)
    → mint_decimals bytes ≡ ok d
    → (d ≡ byte_at 44 bytes) × (reject_if_transfer_hook bytes 82 ≡ ok tt) × (82 ≤ length bytes)
unfolding mint_decimals
decimals_facts bytes d h = elim (Result-cases (reject_if_transfer_hook bytes 82)) [
  | inr (x, refused) ↦ absurd (ground arith)
  | inl (u, e) ↦ ground arith
]

module _ (rt : Runtime) (program_id : Bytes) (acc : TransferSplAccounts) where
  abbrev seeds : World → List Bytes
  seeds w =
      signer_seeds acc.creator.key (account_index (w acc.hybrid_account.key).content)
        (byte_at 1 (w acc.hybrid_account.key).content)

  -- A transfer of tokens from an account of the hybrid account to the signed destination.
  pub record TokensSent (amount : ℕ) (to : Bytes) (w w' : World) : Type 0 where
    pub signed_destination : acc.destination.key ≡ to
    pub distinct : acc.source.key ≢ acc.destination.key
    pub supported :
        (acc.token_program.key ≡ rt.token_program_id)
        ⊎ (acc.token_program.key ≡ rt.token_2022_program_id)
    pub source_program : (w acc.source.key).owner ≡ acc.token_program.key
    pub destination_program : (w acc.destination.key).owner ≡ acc.token_program.key
    pub mint_program : (w acc.mint.key).owner ≡ acc.token_program.key
    pub source_writable : acc.source.is_writable ≡ true
    pub destination_writable : acc.destination.is_writable ≡ true
    pub source_size : 165 ≤ length (w acc.source.key).content
    pub destination_size : 165 ≤ length (w acc.destination.key).content
    pub mint_size : 82 ≤ length (w acc.mint.key).content
    pub source_mint : slice 0 32 (w acc.source.key).content ≡ acc.mint.key
    pub source_owner : slice 32 32 (w acc.source.key).content ≡ acc.hybrid_account.key
    pub balance : amount ≤ from_le_bytes (slice 64 8 (w acc.source.key).content)
    pub destination_mint : slice 0 32 (w acc.destination.key).content ≡ acc.mint.key
    pub no_hook :
        (reject_if_transfer_hook (w acc.mint.key).content 82 ≡ ok tt)
        × (reject_if_transfer_hook (w acc.source.key).content 165 ≡ ok tt)
        × (reject_if_transfer_hook (w acc.destination.key).content 165 ≡ ok tt)
    pub own_address : rt.create_program_address (seeds w) program_id ≡ some acc.hybrid_account.key
    pub effect :
        ((amount ≡ 0) × (w' ≡ w))
        ⊎ (rt.invoke_signed
              (token_instruction (
                transfer_checked_instruction acc.token_program.key acc.source.key acc.mint.key
                  acc.destination.key acc.hybrid_account.key amount
                  (byte_at 44 (w acc.mint.key).content)))
              (seeds w ∷ [])
              w
            ≡ some w')

  module _ (amount : ℕ) (to : Bytes) (w w' : World)
      (size : length (w acc.hybrid_account.key).content ≡ 1120)
      (h : transfer_spl rt program_id acc amount to w ≡ ok w') where
    abbrev hybrid : Bytes
    hybrid = acc.hybrid_account.key

    from_checks :
        (d : ℕ) (derived : Bytes)
        → rt.create_program_address (seeds w) program_id ≡ some derived
        → mint_decimals (w acc.mint.key).content ≡ ok d
        → check_source (w acc.source.key).content acc.mint.key hybrid amount ≡ ok tt
        → check_destination (w acc.destination.key).content acc.mint.key ≡ ok tt
        → (acc.destination.key ≡ to)
          × ((acc.source.key ==ᵇ acc.destination.key) ≡ false)
          × (is_supported_token_program rt acc.token_program.key ≡ true)
          × (derived ≡ hybrid)
          × (((w acc.source.key).owner ==ᵇ acc.token_program.key) ≡ true)
          × (((w acc.destination.key).owner ==ᵇ acc.token_program.key) ≡ true)
          × (((w acc.mint.key).owner ==ᵇ acc.token_program.key) ≡ true)
          × (acc.source.is_writable ≡ true)
          × (acc.destination.is_writable ≡ true)
          × (((amount ≡ 0) × (w' ≡ w))
              ⊎ (rt.invoke_signed
                    (token_instruction (
                      transfer_checked_instruction acc.token_program.key acc.source.key acc.mint.key
                        acc.destination.key hybrid amount d))
                    (seeds w ∷ [])
                    w
                  ≡ some w'))
    unfolding transfer_spl
    from_checks d derived hc hd hs ht =
        let views = (from_slice-view (w hybrid).content size).7 in
        elim (Bool-cases (amount == 0)) [
          | inl z ↦ ground (arith, views, ==ᵇ_iff acc.destination.key to, ==ᵇ_iff derived hybrid)
          | inr nz ↦ ground (arith, views, ==ᵇ_iff acc.destination.key to, ==ᵇ_iff derived hybrid)
        ]

    supported_programs :
        is_supported_token_program rt acc.token_program.key ≡ true
        → (acc.token_program.key ≡ rt.token_program_id)
          ⊎ (acc.token_program.key ≡ rt.token_2022_program_id)
    unfolding is_supported_token_program
    supported_programs e = elim (Bool-cases (acc.token_program.key ==ᵇ rt.token_program_id)) [
      | inl classic ↦ inl ((==ᵇ_iff acc.token_program.key rt.token_program_id).0 classic)
      | inr other ↦ inr ((==ᵇ_iff acc.token_program.key rt.token_2022_program_id).0 (ground arith))
    ]

    assemble :
        (d : ℕ) (derived : Bytes)
        → rt.create_program_address (seeds w) program_id ≡ some derived
        → mint_decimals (w acc.mint.key).content ≡ ok d
        → check_source (w acc.source.key).content acc.mint.key hybrid amount ≡ ok tt
        → check_destination (w acc.destination.key).content acc.mint.key ≡ ok tt
        → TokensSent amount to w w'
    assemble d derived hc hd hs ht =
        let (dest, ne, sup, own, sp, dp, mp, sw, dw, eff) = from_checks d derived hc hd hs ht in
        let (sm, so, bal, sh, sz) =
          source_facts (w acc.source.key).content acc.mint.key hybrid amount hs in
        let (dm, dh, dz) = destination_facts (w acc.destination.key).content acc.mint.key ht in
        let (dec, mh, mz) = decimals_facts (w acc.mint.key).content d hd in
        record {
          signed_destination = dest;
          distinct = λ q. ground (arith, ne, ==ᵇ_iff acc.source.key acc.destination.key);
          supported = supported_programs sup;
          source_program = (==ᵇ_iff (w acc.source.key).owner acc.token_program.key).0 sp;
          destination_program = (==ᵇ_iff (w acc.destination.key).owner acc.token_program.key).0 dp;
          mint_program = (==ᵇ_iff (w acc.mint.key).owner acc.token_program.key).0 mp;
          source_writable = sw;
          destination_writable = dw;
          source_size = sz;
          destination_size = dz;
          mint_size = mz;
          source_mint = sm;
          source_owner = so;
          balance = bal;
          destination_mint = dm;
          no_hook = (mh, sh, dh);
          own_address = hc ∙ ap some own;
          effect = rw (sym dec) eff;
        }

    -- What a token transfer on a hybrid account of the right length has checked and done, if it
    -- succeeds.
    pub transfer_spl-TokensSent : TokensSent amount to w w'
    unfolding transfer_spl
    transfer_spl-TokensSent =
        let views = (from_slice-view (w hybrid).content size).7 in
        elim (Option-cases (rt.create_program_address (seeds w) program_id)) [
          | inl underived ↦ absurd (ground (arith, views))
          | inr (derived, hc) ↦ elim (Result-cases (mint_decimals (w acc.mint.key).content)) [
            | inr (x, refused) ↦ absurd (ground (arith, views))
            | inl (d, hd) ↦
                elim (Result-cases
                  (check_source (w acc.source.key).content acc.mint.key hybrid amount)) [
                    | inr (x, refused) ↦ absurd (ground (arith, views))
                    | inl (u, hs) ↦
                        elim (Result-cases
                          (check_destination (w acc.destination.key).content acc.mint.key)) [
                            | inr (x, refused) ↦ absurd (ground (arith, views))
                            | inl (v, ht) ↦ assemble d derived hc hd hs ht
                          ]
                  ]
          ]
        ]
