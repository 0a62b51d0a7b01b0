-- ===== src/Client/Onchain/Dispatch.antt =====
-- What the program does with the instructions that the client builds.
use solana_hybrid_pq_account.Base.{
  ◌≡◌, refl, sym, ap, ◌∙◌, Option, some, List, ◌∷◌, ◌++◌, Bytes, length, take, drop, take-append,
  drop-append, length-append, arith,
}
use solana_hybrid_pq_account.Core.Error
use solana_hybrid_pq_account.Core.Intent.{AuthorizationIntent, IsIntent}
use solana_hybrid_pq_account.Core.Wire.{decode, encode, from_intent}
use solana_hybrid_pq_account.Core.Wire.Encoding.{length-encode}
use solana_hybrid_pq_account.Core.Wire.Decoding.{decode-encode}
use solana_hybrid_pq_account.Program.Runtime.{Runtime, World, Instruction, AccountInfo}
use solana_hybrid_pq_account.Program.Instruction.{
  DualKeyInstruction, execute, rotate_ed25519_key, change_policy, recover_account,
  set_recovery_config, cancel_social_recovery, from_u8, as_u8,
}
use solana_hybrid_pq_account.Program.Instruction.Codes.{from_u8_iff}
use solana_hybrid_pq_account.Program.Processor.{dispatch, process}
use solana_hybrid_pq_account.Program.Execute
use solana_hybrid_pq_account.Program.ChangePolicy
use solana_hybrid_pq_account.Program.Recover
use solana_hybrid_pq_account.Program.Rotate.{process_rotate_ed25519}
use solana_hybrid_pq_account.Program.SocialRecovery.{
  process_set_recovery_config, process_cancel_social_recovery,
}
use solana_hybrid_pq_account.Client.Error.{ok}
use solana_hybrid_pq_account.Client.Onchain.{
  execute_instruction, execute_transfer_spl_instruction_with_program,
}
use solana_hybrid_pq_account.Client.Onchain.Lifecycle.{
  rotate_ed25519_instruction, change_policy_instruction, recover_account_instruction,
  set_recovery_config_instruction, cancel_social_recovery_instruction,
}

from_u8-as_u8 : (k : DualKeyInstruction) → from_u8 (as_u8 k) ≡ some k
from_u8-as_u8 k = (from_u8_iff (as_u8 k) k).1 refl

-- A handler of the program: it takes the program's id, the accounts, the payload and the state.
abbrev pub Handler : Type 0
Handler = Bytes → List AccountInfo → Bytes → World → Error.Result World

module _ (rt : Runtime) (program_id hybrid : Bytes) (intent : AuthorizationIntent)
    (sig : Bytes) where
  -- The seven builders of instructions that carry an intent and one Falcon signature, each with the
  -- handler that it is meant for.
  pub data Builds : DualKeyInstruction → Handler → Instruction → Type 0 where
    transfer_sol :
        (ix : Instruction)
        → execute_instruction rt program_id hybrid intent sig ≡ ok ix
        → Builds execute (Execute.process rt) ix
    transfer_spl :
        (creator source mint token_program : Bytes) (ix : Instruction)
        → execute_transfer_spl_instruction_with_program rt program_id hybrid creator source mint
            token_program intent sig
          ≡ ok ix
        → Builds execute (Execute.process rt) ix
    rotate_ed25519 :
        (config : Bytes) (ix : Instruction)
        → rotate_ed25519_instruction rt program_id hybrid config intent sig ≡ ok ix
        → Builds rotate_ed25519_key (process_rotate_ed25519 rt) ix
    policy :
        (ix : Instruction)
        → change_policy_instruction rt program_id hybrid intent sig ≡ ok ix
        → Builds change_policy (ChangePolicy.process rt) ix
    recover :
        (config : Option Bytes) (ix : Instruction)
        → recover_account_instruction rt program_id hybrid intent sig config ≡ ok ix
        → Builds recover_account (Recover.process rt) ix
    set_config :
        (config payer : Bytes) (ix : Instruction)
        → set_recovery_config_instruction rt program_id hybrid config payer intent sig ≡ ok ix
        → Builds set_recovery_config (process_set_recovery_config rt) ix
    cancel :
        (config : Bytes) (ix : Instruction)
        → cancel_social_recovery_instruction rt program_id hybrid config intent sig ≡ ok ix
        → Builds cancel_social_recovery (process_cancel_social_recovery rt) ix

  Builds-payload :
      (k : DualKeyInstruction) (handler : Handler) (ix : Instruction)
      → Builds k handler ix
      → (ix.payload ≡ as_u8 k ∷ encode (from_intent intent) ++ sig)
        × (length sig ≡ 666)
        × (ix.program ≡ program_id)
  unfolding as_u8
  Builds-payload k handler ix (transfer_sol _ h) = unfold execute_instruction in ground arith
  Builds-payload k handler ix (transfer_spl creator source mint token_program _ h) =
      unfold execute_transfer_spl_instruction_with_program in ground arith
  Builds-payload k handler ix (rotate_ed25519 config _ h) =
      unfold rotate_ed25519_instruction in ground arith
  Builds-payload k handler ix (policy _ h) = unfold change_policy_instruction in ground arith
  Builds-payload k handler ix (recover config _ h) =
      unfold recover_account_instruction in ground arith
  Builds-payload k handler ix (set_config config payer _ h) =
      unfold set_recovery_config_instruction in ground arith
  Builds-payload k handler ix (cancel config _ h) =
      unfold cancel_social_recovery_instruction in ground arith

  Builds-handler :
      (k : DualKeyInstruction) (handler : Handler) (ix : Instruction) (accounts : List AccountInfo)
      (payload : Bytes) (w : World)
      → Builds k handler ix
      → dispatch rt k program_id accounts payload w ≡ handler program_id accounts payload w
  unfolding dispatch
  Builds-handler k handler ix accounts payload w (transfer_sol _ h) = refl
  Builds-handler k handler ix accounts payload w
        (transfer_spl creator source mint token_program _ h) =
      refl
  Builds-handler k handler ix accounts payload w (rotate_ed25519 config _ h) = refl
  Builds-handler k handler ix accounts payload w (policy _ h) = refl
  Builds-handler k handler ix accounts payload w (recover config _ h) = refl
  Builds-handler k handler ix accounts payload w (set_config config payer _ h) = refl
  Builds-handler k handler ix accounts payload w (cancel config _ h) = refl

  -- The program takes each of these instructions to its handler (a transfer of lamports or tokens to
  -- that of Execute, a rotation of the owner key, a policy change, a recovery, a change of the
  -- recovery config and a cancellation each to its own), with a payload of the length that handlers
  -- ask for, in which it reads the intent's own expiry slot and action, and the signature that was
  -- given.
  pub Builds-dispatch :
      (k : DualKeyInstruction) (handler : Handler) (ix : Instruction) (accounts : List AccountInfo)
      (w : World)
      → IsIntent intent
      → Builds k handler ix
      → (ix.program ≡ program_id)
        × (process rt program_id accounts ix.payload w
            ≡ handler program_id accounts (drop 1 ix.payload) w)
        × (length (drop 1 ix.payload) ≡ 715)
        × (decode (take 49 (drop 1 ix.payload)) ≡ Error.ok (from_intent intent))
        × (drop 49 (drop 1 ix.payload) ≡ sig)
  unfolding process
  Builds-dispatch k handler ix accounts w r b =
      let (p, size, program) = Builds-payload k handler ix b in
      let wire = encode (from_intent intent) in
      let n = length-encode (from_intent intent) in
      let cut : drop 1 ix.payload ≡ wire ++ sig = ap (drop 1) p in
      (
        program,
        ground (arith, p, from_u8-as_u8 k)
            ∙ Builds-handler k handler ix accounts (drop 1 ix.payload) w b,
        ap length cut ∙ omega (arith, length-append wire sig),
        ap (λ l. decode (take 49 l)) cut
            ∙ ap decode (take-append wire sig 49 (sym n))
            ∙ decode-encode (from_intent intent) (unfold from_intent in r.expiry_slot_range)
                (unfold from_intent in r.action_range),
        ap (drop 49) cut ∙ drop-append wire sig 49 (sym n),
      )
