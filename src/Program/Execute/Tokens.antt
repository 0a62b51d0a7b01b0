-- ===== src/Program/Execute/Tokens.antt =====
-- `Execute` with a signed transfer of tokens.
use solana_hybrid_pq_account.Base.{
  ℕ, ◌≡◌, ap, ◌∙◌, List, [], ◌∷◌, Bytes, length, arith, inl, inr, take, drop,
}
use solana_hybrid_pq_account.Core.Error.{ok, Result-cases}
use solana_hybrid_pq_account.Core.Intent
use solana_hybrid_pq_account.Core.Wire.{ExecuteIntentWire, decode}
use solana_hybrid_pq_account.Core.Account.{set_nonce}
use solana_hybrid_pq_account.Core.Account.Setters.{length-set_nonce}
use solana_hybrid_pq_account.Program.Runtime.{
  Runtime, World, AccountInfo, set_content, split_at_checked,
}
use solana_hybrid_pq_account.Program.Runtime.Frames.{set_content_self}
use solana_hybrid_pq_account.Program.Authorize.{Authorization, authorize, split_wire_and_falcon}
use solana_hybrid_pq_account.Program.Authorize.Sound.{Authorized, authorize-Authorized}
use solana_hybrid_pq_account.Program.SplToken.{TransferSplAccounts}
use solana_hybrid_pq_account.Program.SplToken.Transfer.{TokensSent, transfer_spl-TokensSent}
use solana_hybrid_pq_account.Program.Execute.{process_transfer_spl, process_action, process}
use solana_hybrid_pq_account.Program.Execute.Transferred.{bump_nonce_lem}

module _ (rt : Runtime) (program_id : Bytes) (acc : TransferSplAccounts) where
  abbrev pub account_list : List AccountInfo
  account_list =
      acc.hybrid_account ∷ acc.creator ∷ acc.source ∷ acc.mint ∷ acc.destination ∷ acc.token_program
      ∷ acc.instructions_sysvar ∷ []

  -- The accounts once the nonce is consumed.
  abbrev pub with_nonce : Authorization → World → World
  with_nonce auth w =
      set_content acc.hybrid_account.key
        (set_nonce auth.next_nonce (w acc.hybrid_account.key).content) w

  process_transfer_spl-TokensSent :
      (wire : ExecuteIntentWire) (falcon_sig to : Bytes) (amount : ℕ) (w w' : World)
      → process_transfer_spl rt program_id account_list wire falcon_sig to amount w ≡ ok w'
      → (auth : Authorization) × Authorized rt program_id acc.hybrid_account acc.instructions_sysvar
          wire falcon_sig w auth
        × TokensSent rt program_id acc amount to (with_nonce auth w) w'
  unfolding process_transfer_spl
  process_transfer_spl-TokensSent wire falcon_sig to amount w w' h =
      elim (Result-cases
        (authorize rt program_id acc.hybrid_account acc.instructions_sysvar wire falcon_sig w)) [
          | inr (x, refused) ↦ absurd (ground arith)
          | inl (auth, ha) ↦
              let a =
                authorize-Authorized rt program_id acc.hybrid_account acc.instructions_sysvar wire
                  falcon_sig w auth ha in
              let key = acc.hybrid_account.key in
              let new = set_nonce auth.next_nonce (w key).content in
              (
                auth,
                a,
                transfer_spl-TokensSent rt program_id acc amount to (with_nonce auth w) w'
                    (ap length (set_content_self key w new).0
                      ∙ length-set_nonce auth.next_nonce (w key).content
                      ∙ a.size)
                    (ground (arith, bump_nonce_lem acc.hybrid_account auth.next_nonce w a.size)),
              )
        ]

  -- If `Execute` succeeds on a payload whose fragment asks for a transfer of tokens, then the
  -- intent was authorized and the nonce consumed, and behind that: the token program is one of the
  -- two that are supported, and owns the source, the destination and the mint; the source and the
  -- destination are two writable accounts of 165 bytes at least, and the mint has 82 at least; the
  -- destination is the signed one; source and destination name the mint; the source names the hybrid
  -- account as its owner and holds the amount; the check for transfer hooks has passed on all three;
  -- and the signer's seeds give the hybrid account's own address. Either the amount is zero and
  -- nothing else changes, or the rest is the token program's checked transfer of that amount, with
  -- the mint's decimals.
  pub process-TokensSent :
      (payload : Bytes) (wire : ExecuteIntentWire) (to : Bytes) (amount : ℕ) (w w' : World)
      → decode (take 49 payload) ≡ ok wire
      → wire.action ≡ Intent.transfer_spl to amount
      → process rt program_id account_list payload w ≡ ok w'
      → (auth : Authorization) × Authorized rt program_id acc.hybrid_account acc.instructions_sysvar
          wire
          (drop 49 payload)
          w
          auth
        × TokensSent rt program_id acc amount to (with_nonce auth w) w'
  unfolding process process_action split_wire_and_falcon split_at_checked
  process-TokensSent payload wire to amount w w' d e h =
      process_transfer_spl-TokensSent wire (drop 49 payload) to amount w w' (ground arith)
