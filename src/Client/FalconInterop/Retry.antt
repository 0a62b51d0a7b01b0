-- ===== src/Client/FalconInterop/Retry.antt =====
-- The loop that signs again where a signature is too long.
use mathlib.Core.Path.{subst}
use native.Mathlib.Decide.{dec_lt}
use solana_hybrid_pq_account.Base.{
  ℕ, zero, suc, ◌+◌, ◌-◌, ◌≤◌, ◌<◌, ◌≡◌, ◌↔◌, ◌⊎◌, inl, inr, sym, ap, ◌∙◌, Option, none, some,
  Bytes, length, leb, if◌then◌else◌, arith,
}
use solana_hybrid_pq_account.Client.Crates.{Crates}
use solana_hybrid_pq_account.Client.Error.{ClientError, ok, err, falcon_signature_too_long}
use solana_hybrid_pq_account.Client.FalconInterop.{
  WireSignature, padding_len, sign_to_wire, attempts, sign_to_wire_with_retry,
}
use solana_hybrid_pq_account.Client.FalconInterop.Padding.{
  pad, Padded, pad-Padded, from_encoded_bytes-pad, from_encoded_bytes-refused,
}

-- The number of rounds.
abbrev pub rounds : ℕ → ℕ
rounds max_attempts = if leb max_attempts 1 then 1 else max_attempts

le_or_gt : (a b : ℕ) → (a ≤ b) ⊎ (b < a)
le_or_gt a b = elim (dec_lt b a) [ yes h ↦ inr h | no h ↦ inl (omega arith) ]

Padded-pad : (e : Bytes) (s : WireSignature) → Padded e s → s ≡ pad e
unfolding padding_len
Padded-pad e s p = ground (arith, p.padding, p.recorded)

module _ (c : Crates) (message secret_key : Bytes) where
  -- What the signer gives at its call number `n`.
  abbrev pub draw : ℕ → Bytes
  draw n = c.detached_sign n message secret_key

  -- The first of the signatures from `call` on that fits, and where.
  pub record FirstFit (call : ℕ) (i : ℕ) (sig : Bytes) (s : WireSignature) : Type 0 where
    pub drawn : sig ≡ draw (call + i)
    pub padded : Padded sig s
    pub before : (j : ℕ) → j < i → 666 < length (draw (call + j))

  sign_fits :
      (call : ℕ)
      → length (draw call) ≤ 666
      → sign_to_wire c call message secret_key ≡ ok (draw call, pad (draw call))
  unfolding sign_to_wire
  sign_fits call h = ground (arith, from_encoded_bytes-pad (draw call) h)

  sign_refused :
      (call : ℕ)
      → 666 < length (draw call)
      → sign_to_wire c call message secret_key
        ≡ err (falcon_signature_too_long (length (draw call)) 666)
  unfolding sign_to_wire
  sign_refused call h = ground (arith, from_encoded_bytes-refused (draw call) h)

  before_next :
      (call i : ℕ)
      → 666 < length (draw call)
      → ((j : ℕ) → j < i → 666 < length (draw (call + 1 + j)))
      → (j : ℕ) → j < suc i
      → 666 < length (draw (call + j))
  before_next call i long h zero below = subst (λ n. 666 < length (draw n)) (omega arith) long
  before_next call i long h (suc j) below =
      subst (λ n. 666 < length (draw n)) (omega arith) (h j (omega arith))

  -- A successful loop has found the first signature that fits, and that is enough.
  attempts-FirstFit :
      (n attempt call : ℕ) (last : Option ClientError) (sig : Bytes) (s : WireSignature) (k : ℕ)
      → attempts c n attempt call last message secret_key ≡ ok (sig, s, k)
      → (i : ℕ) × (i < n) × (k ≡ attempt + i) × FirstFit call i sig s
  unfolding attempts
  attempts-FirstFit zero attempt call none sig s k h = absurd (cc)
  attempts-FirstFit zero attempt call (some e) sig s k h = absurd (cc)
  attempts-FirstFit (suc n) attempt call last sig s k h = elim (le_or_gt (length (draw call)) 666) [
    | inl fits ↦
        let f = sign_fits call fits in
        let (a, b, d) : (sig ≡ draw call) × (s ≡ pad (draw call)) × (k ≡ attempt) =
          ground (arith, f) in
        (
          0,
          omega arith,
          omega arith,
          record {
            drawn = a ∙ ap draw (omega arith);
            padded = rw (a, b) (pad-Padded (draw call) fits);
            before = λ j below. absurd (omega arith);
          },
        )
    | inr long ↦
        let r = sign_refused call long in
        let (i, below, at, f) =
          attempts-FirstFit n (attempt + 1) (call + 1)
            (some (falcon_signature_too_long (length (draw call)) 666)) sig s k
            (ground (arith, r)) in
        (
          suc i,
          omega arith,
          omega arith,
          record {
            drawn = f.drawn ∙ ap draw (omega arith);
            padded = f.padded;
            before = before_next call i long f.before;
          },
        )
  ]

  after_first :
      (call i : ℕ)
      → ((j : ℕ) → j < suc i → 666 < length (draw (call + j)))
      → (j : ℕ) → j < i
      → 666 < length (draw (call + 1 + j))
  after_first call i h j below =
      subst (λ n. 666 < length (draw n)) (omega arith) (h (suc j) (omega arith))

  FirstFit-attempts :
      (n attempt call : ℕ) (last : Option ClientError) (i : ℕ) (sig : Bytes) (s : WireSignature)
      → i < n
      → FirstFit call i sig s
      → attempts c n attempt call last message secret_key ≡ ok (sig, s, attempt + i)
  unfolding attempts
  FirstFit-attempts zero attempt call last i sig s below f = absurd (omega arith)
  FirstFit-attempts (suc n) attempt call last zero sig s below f =
      let here : sig ≡ draw call = f.drawn ∙ ap draw (omega arith) in
      let fits : length (draw call) ≤ 666 = omega (arith, f.padded.fits, ap length here) in
      let same : s ≡ pad (draw call) = rw (sym here) (Padded-pad sig s f.padded) in
      ground (arith, sign_fits call fits, here, same)
  FirstFit-attempts (suc n) attempt call last (suc i) sig s below f =
      let long : 666 < length (draw call) =
        subst (λ n. 666 < length (draw n)) (omega arith) (f.before 0 (omega arith)) in
      let next : FirstFit (call + 1) i sig s = record {
        drawn = f.drawn ∙ ap draw (omega arith);
        padded = f.padded;
        before = after_first call i f.before;
      } in
      ground (
        arith,
        sign_refused call long,
        FirstFit-attempts n (attempt + 1) (call + 1)
            (some (falcon_signature_too_long (length (draw call)) 666)) i sig s (omega arith) next,
      )

  -- A failed loop has seen only signatures that are too long, and reports the last of them.
  attempts_exhausted :
      (n attempt call : ℕ) (last : Option ClientError) (e : ClientError)
      → attempts c (suc n) attempt call last message secret_key ≡ err e
      → ((j : ℕ) → j < suc n → 666 < length (draw (call + j)))
        × (e ≡ falcon_signature_too_long (length (draw (call + n))) 666)
  unfolding attempts
  attempts_exhausted zero attempt call last e h = elim (le_or_gt (length (draw call)) 666) [
    | inl fits ↦ absurd (ground (arith, sign_fits call fits))
    | inr long ↦
        let r = sign_refused call long in
        let at : call + 0 ≡ call = omega arith in
        (before_next call 0 long (λ j below. absurd (omega arith)), rw at (ground (arith, r)))
  ]
  attempts_exhausted (suc n) attempt call last e h = elim (le_or_gt (length (draw call)) 666) [
    | inl fits ↦ absurd (ground (arith, sign_fits call fits))
    | inr long ↦
        let r = sign_refused call long in
        let (all, reported) =
          attempts_exhausted n (attempt + 1) (call + 1)
            (some (falcon_signature_too_long (length (draw call)) 666)) e (ground (arith, r)) in
        let at : call + suc n ≡ call + 1 + n = omega arith in
        (before_next call (suc n) long all, rw at reported)
  ]

  -- Exactly the first signature of the signer that fits is returned, with the number of its
  -- attempt, if it is among the first `max_attempts` (or the first one, where that is 0).
  pub sign_to_wire_with_retry-FirstFit :
      (call max_attempts k : ℕ) (sig : Bytes) (s : WireSignature)
      → (sign_to_wire_with_retry c call message secret_key max_attempts ≡ ok (sig, s, k))
        ↔ ((1 ≤ k) × (k ≤ rounds max_attempts) × FirstFit call (k - 1) sig s)
  unfolding sign_to_wire_with_retry
  sign_to_wire_with_retry-FirstFit call max_attempts k sig s = (
    λ h.
        let (i, below, at, f) = attempts-FirstFit (rounds max_attempts) 1 call none sig s k h in
        let same : i ≡ k - 1 = omega arith in
        (omega arith, omega arith, subst (λ n. FirstFit call n sig s) same f),
    λ (low, high, f).
        FirstFit-attempts (rounds max_attempts) 1 call none (k - 1) sig s (omega arith) f
        ∙ ap (λ n. ok (sig, s, n)) (omega arith),
  )

  -- If signing fails, then every attempt that was to be made was made, each gave a signature of
  -- more than 666 bytes, and the error reports the length of the last.
  pub sign_to_wire_with_retry-exhausted :
      (call max_attempts : ℕ) (e : ClientError)
      → sign_to_wire_with_retry c call message secret_key max_attempts ≡ err e
      → ((j : ℕ) → j < rounds max_attempts → 666 < length (draw (call + j)))
        × (e ≡ falcon_signature_too_long (length (draw (call + (rounds max_attempts - 1)))) 666)
  unfolding sign_to_wire_with_retry
  sign_to_wire_with_retry-exhausted call max_attempts e h =
      let some_round : rounds max_attempts ≡ suc (rounds max_attempts - 1) = ground arith in
      let (all, reported) =
        attempts_exhausted (rounds max_attempts - 1) 1 call none e
          (subst (λ r. attempts c r 1 call none message secret_key ≡ err e) some_round h) in
      (λ j below. all j (omega arith), reported)
