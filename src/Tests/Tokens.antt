-- ===== src/Tests/Tokens.antt =====
-- Transfers of tokens, and the walk over extensions.
use solana_hybrid_pq_account.Base.{
  ℕ, some, drop, take, ◌≡◌, refl, [], ◌∷◌, ◌++◌, Bytes, arith, replicate,
}
use solana_hybrid_pq_account.Core.Error.{Result, ok}
use solana_hybrid_pq_account.Core.Wire.{decode}
use solana_hybrid_pq_account.Core.Intent
use solana_hybrid_pq_account.Core.Intent.{
  Action, transfer_sol, recover_account, change_policy, rotate_falcon_key, IsKey,
}
use solana_hybrid_pq_account.Program.Runtime.{World}
use solana_hybrid_pq_account.Program.Authorize.{Authorization}
use solana_hybrid_pq_account.Program.Authorize.Sound.{Authorized}
use solana_hybrid_pq_account.Program.SplToken.{
  TransferSplAccounts, walk_tlv, reject_if_transfer_hook,
}
use solana_hybrid_pq_account.Program.SplToken.Transfer.{TokensSent}
use solana_hybrid_pq_account.Program.SplToken.Walk.{Enough, walk_tlv-terminates, padded_mint-passes}
use solana_hybrid_pq_account.Tests.Runs
use solana_hybrid_pq_account.Tests.Runs.{succeeds}
use solana_hybrid_pq_account.Program.Execute
use solana_hybrid_pq_account.Program.Execute.Tokens.{account_list, with_nonce, process-TokensSent}
use solana_hybrid_pq_account.Tests.Fixture.{
  run-ok, run, payload, key, program_id, info, runtime, wire, token_ledger,
}

abbrev token_accounts : TransferSplAccounts
token_accounts = record {
  hybrid_account = info 1;
  creator = info 2;
  source = info 21;
  mint = info 23;
  destination = info 22;
  token_program = info 12;
  instructions_sysvar = info 3;
}

abbrev act : Action
act = Intent.transfer_spl (key 22) 300

abbrev sent : World
sent =
    run
      (Execute.process (runtime 10) program_id (account_list (runtime 10) program_id token_accounts)
        (payload act) token_ledger)
      token_ledger

sent_ok :
    Execute.process
      (runtime 10)
      program_id
      (account_list (runtime 10) program_id token_accounts)
      (payload act)
      token_ledger
    ≡ ok sent
unfolding succeeds
sent_ok =
    run-ok
      (Execute.process (runtime 10) program_id (account_list (runtime 10) program_id token_accounts)
        (payload act) token_ledger)
      token_ledger Runs.transfer_spl_runs

act_decodes : decode (take 49 (payload act)) ≡ ok (wire act)
unfolding succeeds
act_decodes = refl

process-TokensSent_example :
    (auth : Authorization) × Authorized
      (runtime 10)
      program_id
      (info 1)
      (info 3)
      (wire act)
      (drop 49 (payload act))
      token_ledger
      auth
    × TokensSent
        (runtime 10)
        program_id
        token_accounts
        300
        (key 22)
        (with_nonce (runtime 10) program_id token_accounts auth token_ledger)
        sent
process-TokensSent_example =
    process-TokensSent (runtime 10) program_id token_accounts (payload act) (wire act) (key 22) 300
      token_ledger sent act_decodes refl sent_ok

-- An extension of type 1 and length 2, then a transfer hook.
abbrev extensions : Bytes
extensions = 1 ∷ 0 ∷ 2 ∷ 0 ∷ 5 ∷ 5 ∷ 14 ∷ 0 ∷ 0 ∷ 0 ∷ []

walk_tlv-terminates_example :
    (r : Result (Unit {0})) × ((turns : ℕ)
      → Enough turns 0 extensions
      → walk_tlv turns 0 extensions ≡ some r)
walk_tlv-terminates_example = walk_tlv-terminates 0 extensions

-- A Token-2022 mint with a transfer hook, as that program lays it out.
abbrev padded_mint : Bytes
padded_mint = replicate 165 0 ++ (1 ∷ 14 ∷ 0 ∷ 64 ∷ 0 ∷ replicate 64 7)

padded_mint-passes_example : reject_if_transfer_hook padded_mint 82 ≡ ok tt
unfolding succeeds
padded_mint-passes_example = padded_mint-passes padded_mint (omega arith) refl refl refl
