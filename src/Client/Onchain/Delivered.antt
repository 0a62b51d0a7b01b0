-- ===== src/Client/Onchain/Delivered.antt =====
-- A transfer of lamports from the client's builder to its effect.
use mathlib.Core.Path.{subst}
use solana_hybrid_pq_account.Base.{
  ℕ, ◌+◌, ◌-◌, ◌^◌, ◌≤◌, ◌<◌, ◌≡◌, ◌≢◌, refl, ap, ◌∙◌, true, false, some, List, [], ◌∷◌, Bytes,
  length, take, drop, ◌==◌, ◌==ᵇ◌, ==ᵇ_iff, ==ᵇ_refl, Bool-cases, inl, inr, arith,
}
use solana_hybrid_pq_account.Core.Error
use solana_hybrid_pq_account.Core.Intent
use solana_hybrid_pq_account.Core.Intent.{IsIntent, AuthorizationIntent}
use solana_hybrid_pq_account.Core.Wire.{ExecuteIntentWire, from_intent, decode}
use solana_hybrid_pq_account.Core.Account.{set_nonce}
use solana_hybrid_pq_account.Program.Runtime.{
  Runtime, World, AccountInfo, AccountMeta, Instruction, set_content, set_lamports, checked_add,
  checked_sub, split_at_checked,
}
use solana_hybrid_pq_account.Program.Runtime.Frames.{set_content_self, set_content_ne}
use solana_hybrid_pq_account.Program.Authorize.{Authorization, authorize, split_wire_and_falcon}
use solana_hybrid_pq_account.Program.Execute
use solana_hybrid_pq_account.Program.Execute.{
  bump_nonce, move_lamports, process_transfer_sol, process_action,
}
use solana_hybrid_pq_account.Program.Execute.Transferred.{
  Transferred, bump_nonce_lem, process-Transferred,
}
use solana_hybrid_pq_account.Program.Instruction
use solana_hybrid_pq_account.Program.Processor.{process}
use solana_hybrid_pq_account.Client.Crates.{Crates}
use solana_hybrid_pq_account.Client.Error.{ok}
use solana_hybrid_pq_account.Client.Keys.{Ed25519Keypair}
use solana_hybrid_pq_account.Client.Onchain.{execute_instruction, signing_intent}
use solana_hybrid_pq_account.Client.Onchain.Dispatch.{Builds-dispatch, transfer_sol}
use solana_hybrid_pq_account.Client.Onchain.Authorized.{Ready, Ready-authorize}

-- The accounts that an instruction names, as the program receives them.
abbrev pub infos : List AccountMeta → List AccountInfo
infos [] = []
infos (m ∷ ms) =
    record { key = m.pubkey; is_signer = m.signer; is_writable = m.writable } ∷ infos ms

abbrev pub writable_info : Bytes → AccountInfo
writable_info key = record { key = key; is_signer = false; is_writable = true }

abbrev pub readonly_info : Bytes → AccountInfo
readonly_info key = record { key = key; is_signer = false; is_writable = false }

module _ (rt : Runtime) (hybrid recipient : AccountInfo) (amount : ℕ) where
  move_lamports_total :
      (w : World) (minimum_balance : ℕ → ℕ)
      → rt.minimum_balance ≡ some minimum_balance
      → minimum_balance 1120 + amount ≤ (w hybrid.key).lamports
      → (w recipient.key).lamports + amount < 2 ^ 64
      → (w' : World) × (move_lamports rt hybrid recipient amount w ≡ Error.ok w')
  unfolding move_lamports checked_add checked_sub
  move_lamports_total w minimum_balance e enough fits = elim (Bool-cases (amount == 0)) [
    | inl nothing ↦ (w, ground arith)
    | inr some_amount ↦ (
      set_lamports recipient.key ((w recipient.key).lamports + amount)
          (set_lamports hybrid.key ((w hybrid.key).lamports - amount) w),
      ground arith,
    )
  ]

module _ (rt : Runtime) (c : Crates) (ed : Ed25519Keypair) (program_id hybrid to : Bytes)
    (n expiry amount : ℕ) (sig : Bytes) (w : World) where
  abbrev intent : AuthorizationIntent
  intent = signing_intent program_id hybrid n expiry (Intent.transfer_sol to amount)

  -- The handler, from an authorization and enough lamports.
  handled :
      (auth : Authorization) (sysvar : AccountInfo) (wire : ExecuteIntentWire)
      (minimum_balance : ℕ → ℕ)
      → authorize rt program_id (writable_info hybrid) sysvar wire sig w ≡ Error.ok auth
      → length (w hybrid).content ≡ 1120
      → to ≢ hybrid
      → rt.minimum_balance ≡ some minimum_balance
      → minimum_balance 1120 + amount ≤ (w hybrid).lamports
      → (w to).lamports + amount < 2 ^ 64
      → (w' : World) × (process_transfer_sol rt program_id
            (writable_info hybrid ∷ writable_info to ∷ sysvar ∷ [])
            wire
            sig
            to
            amount
            w
          ≡ Error.ok w')
  unfolding process_transfer_sol
  handled auth sysvar wire minimum_balance a size ne e enough fits =
      let new = set_nonce auth.next_nonce (w hybrid).content in
      let w₁ = set_content hybrid new w in
      let (w', moved) =
        move_lamports_total rt (writable_info hybrid) (writable_info to) amount w₁ minimum_balance e
          (omega (arith, (set_content_self hybrid w new).1))
          (omega (arith, ap (λ x. x.lamports) (set_content_ne hybrid w new to ne))) in
      let other : (to ==ᵇ hybrid) ≡ false = elim (Bool-cases (to ==ᵇ hybrid)) [
        | inl same ↦ absurd (ne ((==ᵇ_iff to hybrid).0 same))
        | inr d ↦ d
      ] in
      (
        w',
        ground (
          arith,
          ==ᵇ_refl to,
          other,
          a,
          bump_nonce_lem (writable_info hybrid) auth.next_nonce w size,
          moved,
        ),
      )

  named :
      (ix : Instruction)
      → execute_instruction rt program_id hybrid intent sig ≡ ok ix
      → infos ix.metas
        ≡ writable_info hybrid ∷ writable_info to ∷ readonly_info rt.instructions_sysvar_id ∷ []
  unfolding execute_instruction signing_intent Intent.new
  named ix h = ground arith

  run :
      (payload : Bytes) (accounts : List AccountInfo) (wire : ExecuteIntentWire) (w' : World)
      → length payload ≡ 715
      → decode (take 49 payload) ≡ Error.ok wire
      → drop 49 payload ≡ sig
      → wire.action ≡ Intent.transfer_sol to amount
      → process_transfer_sol rt program_id accounts wire sig to amount w ≡ Error.ok w'
      → Execute.process rt program_id accounts payload w ≡ Error.ok w'
  unfolding Execute.process process_action split_wire_and_falcon split_at_checked
  run payload accounts wire w' size d cut at h = ground arith

  -- A transfer that the client signs and builds in that situation, to another account and with the
  -- rent minimum left over, goes through: the program processes the built instruction with the
  -- accounts that it names, moves exactly the amount and consumes the nonce.
  pub execute_instruction-Transferred :
      (ix : Instruction) (minimum_balance : ℕ → ℕ)
      → IsIntent intent
      → Ready rt c ed program_id
          (writable_info hybrid)
          (readonly_info rt.instructions_sysvar_id)
          n
          expiry
          (Intent.transfer_sol to amount)
          sig
          w
      → execute_instruction rt program_id hybrid intent sig ≡ ok ix
      → to ≢ hybrid
      → rt.minimum_balance ≡ some minimum_balance
      → minimum_balance 1120 + amount ≤ (w hybrid).lamports
      → (w to).lamports + amount < 2 ^ 64
      → (w' : World) × (process rt program_id (infos ix.metas) ix.payload w ≡ Error.ok w')
        × Transferred rt program_id
            (writable_info hybrid)
            (writable_info to)
            (readonly_info rt.instructions_sysvar_id)
            (from_intent intent)
            sig
            to
            amount
            w
            w'
  execute_instruction-Transferred ix minimum_balance i r b ne e enough fits =
      let sysvar = readonly_info rt.instructions_sysvar_id in
      let (auth, a, same_digest, next) =
        Ready-authorize rt c ed program_id (writable_info hybrid) sysvar n expiry
          (Intent.transfer_sol to amount) sig w r in
      let (own, at, size, d, cut) =
        Builds-dispatch rt program_id hybrid intent sig Instruction.execute (Execute.process rt) ix
          (infos ix.metas) w i (transfer_sol ix b) in
      let (w', h) =
        handled auth sysvar (from_intent intent) minimum_balance a r.size ne e enough fits in
      let action : (from_intent intent).action ≡ Intent.transfer_sol to amount =
        unfold from_intent signing_intent Intent.new in refl in
      let ran : Execute.process rt program_id (infos ix.metas) (drop 1 ix.payload) w ≡ Error.ok w' =
        run (drop 1 ix.payload) (infos ix.metas) (from_intent intent) w' size d cut action
          (rw (named ix b) h) in
      (
        w',
        at ∙ ran,
        subst
            (λ f.
              Transferred rt program_id (writable_info hybrid) (writable_info to) sysvar
                (from_intent intent) f to amount w w')
            cut
            (process-Transferred rt program_id (writable_info hybrid) (writable_info to) sysvar
              (drop 1 ix.payload) (from_intent intent) to amount w w' d action
              (subst (λ l. Execute.process rt program_id l (drop 1 ix.payload) w ≡ Error.ok w')
                (named ix b) ran)),
      )
