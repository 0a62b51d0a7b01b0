-- ===== src/Program/SplToken/Walk.antt =====
-- The walk over the extensions of a token account: its fuel, what it rejects, and what it misses.
use solana_hybrid_pq_account.Base.{
  ℕ, zero, suc, ◌+◌, ◌*◌, none, some, Option-cases, leb, ◌≤◌, ◌<◌, ◌≡◌, ◌≢◌, ◌⊎◌, inl, inr, refl,
  ap, ◌∙◌, false, [], ◌∷◌, Bytes, length, arith, take, drop, Bool-cases, ltb,
}
use solana_hybrid_pq_account.Base.Buffer.{slice, byte_at}
use solana_hybrid_pq_account.Base.Layout.{zeros}
use solana_hybrid_pq_account.Base.Words.{from_le_bytes}
use solana_hybrid_pq_account.Core.Error.{Result, ok, err, invalid_account_data}
use solana_hybrid_pq_account.Core.Wire.{any_nonzero}
use solana_hybrid_pq_account.Program.SplToken.{
  ext_type, ext_len, walk_tlv, account_type_at, reject_if_transfer_hook,
}

-- Turns that are enough from `i` on: each of them but the last moves by four bytes at least.
abbrev pub Enough : ℕ → ℕ → Bytes → Type 0
Enough turns i bytes = (0 < turns) × (length bytes < i + 4 * turns)

ends : (turns i : ℕ) (bytes : Bytes) → Enough turns i bytes → walk_tlv turns i bytes ≢ none
unfolding walk_tlv
ends zero i bytes h = absurd (omega arith)
ends (suc zero) i bytes h = λ e. absurd (ground arith)
ends (suc (suc turns)) i bytes h = elim (Bool-cases (leb (i + 4) (length bytes))) [
  | inr behind ↦ λ e. absurd (ground arith)
  | inl inside ↦
      let rest = ends (suc turns) (i + 4 + ext_len i bytes) bytes (ground arith) in
      λ e. absurd (ground (arith, rest))
]

same :
    (f g i : ℕ) (bytes : Bytes)
    → Enough f i bytes
    → Enough g i bytes
    → walk_tlv f i bytes ≡ walk_tlv g i bytes
unfolding walk_tlv
same zero g i bytes hf hg = absurd (omega arith)
same (suc f) zero i bytes hf hg = absurd (omega arith)
same (suc f) (suc g) i bytes hf hg = elim (Bool-cases (leb (i + 4) (length bytes))) [
  | inr behind ↦ ground arith
  | inl inside ↦
      ground (arith, same f g (i + 4 + ext_len i bytes) bytes (ground arith) (ground arith))
]

-- The loop over the extensions ends by its own tests, from every offset: there is a result that it
-- has within every number of turns that is positive and above a quarter of the bytes that are left.
pub walk_tlv-terminates :
    (i : ℕ) (bytes : Bytes)
    → (r : Result (Unit {0})) × ((turns : ℕ)
        → Enough turns i bytes
        → walk_tlv turns i bytes ≡ some r)
walk_tlv-terminates i bytes = elim (Option-cases (walk_tlv (length bytes + 1) i bytes)) [
  | inl e ↦ absurd (ends (length bytes + 1) i bytes (omega arith) e)
  | inr (r, e) ↦ (r, λ turns h. same turns (length bytes + 1) i bytes h (omega arith) ∙ e)
]

-- The offsets that the walk reaches from `i` by whole entries that end neither it nor the data.
pub data Reaches (bytes : Bytes) : ℕ → ℕ → Type 0 where
  here : (i : ℕ) → Reaches bytes i i
  skip :
      (i j : ℕ)
      → i + 4 + ext_len i bytes ≤ length bytes
      → (ext_type i bytes ≢ 0) ⊎ (ext_len i bytes ≢ 0)
      → Reaches bytes (i + 4 + ext_len i bytes) j
      → Reaches bytes i j

abbrev pub IsHook : ℕ → Bytes → Type 0
IsHook i bytes = (ext_type i bytes ≡ 14) ⊎ (ext_type i bytes ≡ 15)

-- A transfer-hook entry that the walk reaches is rejected, wherever it stands.
pub walk_tlv-rejects :
    (fuel i j : ℕ) (bytes : Bytes)
    → length bytes ≤ i + fuel
    → Reaches bytes i j
    → j + 4 ≤ length bytes
    → IsHook j bytes
    → walk_tlv fuel i bytes ≡ some (err invalid_account_data)
unfolding walk_tlv
walk_tlv-rejects zero i _ bytes enough (here _) fits hook = absurd (omega arith)
walk_tlv-rejects (suc fuel) i _ bytes enough (here _) fits (inl t) = ground arith
walk_tlv-rejects (suc fuel) i _ bytes enough (here _) fits (inr t) = ground arith
walk_tlv-rejects zero i j bytes enough (skip _ _ whole go r) fits hook = absurd (omega arith)
walk_tlv-rejects (suc fuel) i j bytes enough (skip _ _ whole (inl t) r) fits hook =
    ground
      (arith, walk_tlv-rejects fuel (i + 4 + ext_len i bytes) j bytes (omega arith) r fits hook)
walk_tlv-rejects (suc fuel) i j bytes enough (skip _ _ whole (inr t) r) fits hook =
    ground
      (arith, walk_tlv-rejects fuel (i + 4 + ext_len i bytes) j bytes (omega arith) r fits hook)

any_nonzero-byte_at : (i : ℕ) (xs : Bytes) → any_nonzero xs ≡ false → byte_at i xs ≡ 0
unfolding any_nonzero byte_at
any_nonzero-byte_at i [] h = refl
any_nonzero-byte_at zero (x ∷ xs) h = ground arith
any_nonzero-byte_at (suc i) (x ∷ xs) h = any_nonzero-byte_at i xs (ground arith)

byte_at-take : (i n : ℕ) (xs : Bytes) → i < n → byte_at i (take n xs) ≡ byte_at i xs
unfolding byte_at
byte_at-take i zero xs h = absurd (omega arith)
byte_at-take i (suc n) [] h = refl
byte_at-take zero (suc n) (x ∷ xs) h = refl
byte_at-take (suc i) (suc n) (x ∷ xs) h = byte_at-take i n xs (omega arith)

byte_at-drop : (o i : ℕ) (xs : Bytes) → byte_at i (drop o xs) ≡ byte_at (o + i) xs
unfolding byte_at
byte_at-drop zero i xs = ap (λ k. byte_at k xs) (omega arith)
byte_at-drop (suc o) i [] = refl
byte_at-drop (suc o) i (x ∷ xs) =
    byte_at-drop o i xs ∙ ap (λ k. byte_at k (x ∷ xs)) {x = suc (o + i)} (omega arith)

-- An empty entry ends the walk.
walk_tlv-ends :
    (fuel i : ℕ) (bytes : Bytes)
    → 1 ≤ fuel
    → ext_type i bytes ≡ 0
    → ext_len i bytes ≡ 0
    → walk_tlv fuel i bytes ≡ some (ok tt)
unfolding walk_tlv
walk_tlv-ends zero i bytes some_fuel t l = absurd (omega arith)
walk_tlv-ends (suc fuel) i bytes some_fuel t l = elim (Bool-cases (ltb (length bytes) (i + 4))) [
  | inl behind ↦ ground arith
  | inr inside ↦ ground arith
]

padding_start : (bytes : Bytes) → byte_at 165 bytes ≡ 1 → account_type_at 82 bytes ≡ 82
unfolding account_type_at slice
padding_start bytes kind =
    let at : byte_at 83 (slice 82 273 bytes) ≡ 1 =
      byte_at-take 83 273 (drop 82 bytes) (omega arith) ∙ byte_at-drop 82 83 bytes ∙ kind in
    elim (Bool-cases (any_nonzero (slice 82 273 bytes))) [
      | inl some_byte ↦ ground arith
      | inr all_zero ↦
          absurd (omega (arith, at, any_nonzero-byte_at 83 (slice 82 273 bytes) all_zero))
    ]

-- The account type of a Token-2022 mint stands at 165, behind padding that starts at 82, so
-- that the walk starts in the padding, and ends at its first four zero bytes: a mint of that
-- layout passes the check whatever extensions follow, a transfer hook included.
pub padded_mint-passes :
    (bytes : Bytes)
    → 166 ≤ length bytes
    → byte_at 165 bytes ≡ 1
    → slice 83 2 bytes ≡ zeros 2
    → slice 85 2 bytes ≡ zeros 2
    → reject_if_transfer_hook bytes 82 ≡ ok tt
unfolding reject_if_transfer_hook zeros from_le_bytes
padded_mint-passes bytes size kind t l = ground (
  arith,
  padding_start bytes kind,
  walk_tlv-ends (length bytes) 83 bytes (omega arith) (ap from_le_bytes t) (ap from_le_bytes l),
)
