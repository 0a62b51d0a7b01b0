-- ===== src/Client/Rpc/Confirmed.antt =====
-- When a transaction that is polled counts as confirmed.
use Prim.Native.String.{String}
use text.Mathlib.Text.{◌==◌ as str_eq}
use mathlib.Core.Path.{subst}
use solana_hybrid_pq_account.Base.{
  ℕ, ◌+◌, ◌<◌, ◌≡◌, ◌↔◌, ◌⊎◌, inl, inr, sym, ap, ◌∙◌, Bool, true, false, not, ◌||◌, zero, suc,
  arith,
}
use solana_hybrid_pq_account.Client.Error.{Result, ok}
use solana_hybrid_pq_account.Client.Rpc.{Sdk, Node, Status, unknown, confirmation, poll}

-- What ends the loop with a success, and what lets it go on.
abbrev pub confirms : Result Status → Bool
confirms (ok (confirmation level)) = str_eq level "confirmed" || str_eq level "finalized"
confirms _ = false

abbrev pub waits : Result Status → Bool
waits (ok unknown) = true
waits (ok (confirmation level)) = not (str_eq level "confirmed" || str_eq level "finalized")
waits _ = false

module _ (sdk : Sdk) (node : Node) (url sig : String) where
  step :
      (left i : ℕ) {result : String}
      → poll sdk node url sig (suc left) i ≡ ok result
      → ((confirms (node.signature_status url sig i) ≡ true) × (result ≡ sig))
        ⊎ ((waits (node.signature_status url sig i) ≡ true)
            × (poll sdk node url sig left (i + 1) ≡ ok result))
  unfolding poll
  step left i h = ground arith

  back_confirms :
      (left i : ℕ)
      → confirms (node.signature_status url sig i) ≡ true
      → poll sdk node url sig (suc left) i ≡ ok sig
  unfolding poll
  back_confirms left i h = ground arith

  back_waits :
      (left i : ℕ)
      → waits (node.signature_status url sig i) ≡ true
      → poll sdk node url sig (suc left) i ≡ poll sdk node url sig left (i + 1)
  unfolding poll
  back_waits left i h = ground arith

  abbrev status : ℕ → Result Status
  status i = node.signature_status url sig i

  -- The poll `i + j` confirms the transaction, and those before it found no verdict.
  abbrev pub ConfirmedAt : ℕ → ℕ → Type 0
  ConfirmedAt i j =
      (confirms (status (i + j)) ≡ true) × ((k : ℕ) → k < j → waits (status (i + k)) ≡ true)

  waits_from :
      (i j : ℕ)
      → waits (status i) ≡ true
      → ((k : ℕ) → k < j → waits (status (i + 1 + k)) ≡ true)
      → (k : ℕ) → k < suc j
      → waits (status (i + k)) ≡ true
  waits_from i j first rest zero below = subst (λ n. waits (status n) ≡ true) (omega arith) first
  waits_from i j first rest (suc k) below =
      subst (λ n. waits (status n) ≡ true) (omega arith) (rest k (omega arith))

  poll-ConfirmedAt :
      (left i : ℕ) {result : String}
      → poll sdk node url sig left i ≡ ok result
      → (result ≡ sig) × (j : ℕ) × (j < left) × ConfirmedAt i j
  unfolding poll
  poll-ConfirmedAt zero i h = absurd (cc)
  poll-ConfirmedAt (suc left) i h = elim (step left i h) [
    | inl (confirmed, e) ↦ (
      e,
      0,
      omega arith,
      (
        subst (λ n. confirms (status n) ≡ true) (omega arith) confirmed,
        λ k below. absurd (omega arith),
      ),
    )
    | inr (first, continued) ↦
        let (e, j, below, c) = poll-ConfirmedAt left (i + 1) continued in
        (
          e,
          suc j,
          omega arith,
          (subst (λ n. confirms (status n) ≡ true) (omega arith) c.0, waits_from i j first c.1),
        )
  ]

  ConfirmedAt-poll :
      (left i j : ℕ) → j < left → ConfirmedAt i j → poll sdk node url sig left i ≡ ok sig
  ConfirmedAt-poll zero i j below c = absurd (omega arith)
  ConfirmedAt-poll (suc left) i zero below c =
      back_confirms left i (subst (λ n. confirms (status n) ≡ true) (omega arith) c.0)
  ConfirmedAt-poll (suc left) i (suc j) below c =
      back_waits left i (subst (λ n. waits (status n) ≡ true) (omega arith) (c.1 0 (omega arith)))
      ∙ ConfirmedAt-poll left (i + 1) j (omega arith) (
        subst (λ n. confirms (status n) ≡ true) (omega arith) c.0,
        λ k lt. subst (λ n. waits (status n) ≡ true) (omega arith) (c.1 (suc k) (omega arith)),
      )

  -- The loop over the polls succeeds with the transaction's own signature if and only if one of the
  -- polls that are left finds the transaction confirmed or finalized, and every poll before that one
  -- was answered, with no status yet or with another level and without an error.
  pub poll_iff :
      (left i : ℕ) (result : String)
      → (poll sdk node url sig left i ≡ ok result)
        ↔ ((result ≡ sig) × (j : ℕ) × (j < left) × ConfirmedAt i j)
  poll_iff left i result = (
    poll-ConfirmedAt left i,
    λ (e, j, below, c). ConfirmedAt-poll left i j below c ∙ ap (λ s. ok s) (sym e),
  )
