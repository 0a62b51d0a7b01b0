-- ===== src/Tests/Submission.antt =====
-- Instructions that the client builds, given to the program.
use solana_hybrid_pq_account.Base.{
  ℕ, ◌+◌, ◌^◌, ap, ◌==ᵇ◌, ◌<◌, ◌≤◌, ◌≡◌, ◌≢◌, refl, [], Bytes, length, replicate, take, drop, arith,
}
use solana_hybrid_pq_account.Base.Buffer.{byte_at}
use solana_hybrid_pq_account.Core.ChainDomain.{chain_domain_localnet}
use solana_hybrid_pq_account.Core.Error
use solana_hybrid_pq_account.Core.Intent
use solana_hybrid_pq_account.Core.Intent.{AuthorizationIntent, IsIntent, Action}
use solana_hybrid_pq_account.Core.Canonical.{canonical_preimage}
use solana_hybrid_pq_account.Core.Policy.{hybrid_and, both, is_implemented}
use solana_hybrid_pq_account.Core.Wire.{from_intent, decode}
use solana_hybrid_pq_account.Program.Runtime.{World, Instruction}
use solana_hybrid_pq_account.Program.Authorize.{Authorization, authorize}
use solana_hybrid_pq_account.Program.Pda.{verify}
use solana_hybrid_pq_account.Program.Initialize.{parse}
use solana_hybrid_pq_account.Program.Instruction
use solana_hybrid_pq_account.Program.Execute
use solana_hybrid_pq_account.Program.Initialize
use solana_hybrid_pq_account.Program.Processor.{process}
use solana_hybrid_pq_account.Program.Execute.Transferred.{Transferred}
use solana_hybrid_pq_account.Client.Error.{Result, ok, err}
use solana_hybrid_pq_account.Client.Keys.{Ed25519Keypair, public_bytes}
use solana_hybrid_pq_account.Client.Onchain.{
  default_chain_domain, ed25519_precompile_instruction, signing_intent, execute_instruction,
  initialize_instruction, initialize_data, derive_hybrid_account,
}
use solana_hybrid_pq_account.Client.Onchain.Dispatch.{transfer_sol, Builds-dispatch}
use solana_hybrid_pq_account.Client.Onchain.Created.{initialize_instruction-process}
use solana_hybrid_pq_account.Client.Onchain.Authorized.{Ready, Ready-authorize}
use solana_hybrid_pq_account.Client.Onchain.Delivered.{
  infos, writable_info, readonly_info, execute_instruction-Transferred,
}
use solana_hybrid_pq_account.Core.Account.{
  version, owner_ed25519, prepared_falcon_public_key, policy, falcon_required_above,
}
use solana_hybrid_pq_account.Tests.Runs.{succeeds}
use solana_hybrid_pq_account.Tests.Fixture.{key, program_id, hybrid_bytes, ledger}
use solana_hybrid_pq_account.Tests.Crates.{crates, crates-IsPrecompile, local_runtime}

abbrev action : Action
action = Intent.transfer_sol (key 2) 500

abbrev before : World
before = ledger (hybrid_bytes 2 0 41) []

abbrev ed : Ed25519Keypair
ed = record { signing = key 3 }

abbrev intent : AuthorizationIntent
intent = signing_intent program_id (key 1) 41 100 action

intent-IsIntent : IsIntent intent
unfolding signing_intent Intent.new chain_domain_localnet
intent-IsIntent = omega arith

abbrev sig : Bytes
sig = replicate 666 0

ready :
    Ready local_runtime crates ed program_id
      (writable_info (key 1))
      (readonly_info (key 3))
      41
      100
      action
      sig
      before
unfolding succeeds signing_intent Intent.new chain_domain_localnet default_chain_domain public_bytes
    ed25519_precompile_instruction version owner_ed25519 prepared_falcon_public_key policy
    falcon_required_above
ready = record {
  precompile = crates-IsPrecompile;
  cluster = refl;
  owned = refl;
  size = refl;
  current_version = refl;
  slot = 10;
  clock = refl;
  in_time = omega arith;
  this_nonce = refl;
  next_fits = omega arith;
  owner_key = refl;
  key_size = refl;
  message = key 5;
  message_lem = refl;
  message_size = refl;
  ed_sig_size = refl;
  before = refl;
  sysvar_key = refl;
  sig_size = refl;
  falcon_accepts = refl;
  stored_policy = hybrid_and;
  policy_read = refl;
  requirement = both;
  effective = refl;
}

Ready-authorize_example :
    (auth : Authorization) × (authorize local_runtime program_id
        (writable_info (key 1))
        (readonly_info (key 3))
        (from_intent intent)
        sig
        before
      ≡ Error.ok auth)
    × (auth.digest ≡ local_runtime.sha256 (canonical_preimage intent))
    × (auth.next_nonce ≡ 42)
Ready-authorize_example =
    Ready-authorize local_runtime crates ed program_id (writable_info (key 1))
      (readonly_info (key 3)) 41 100 action sig before ready

abbrev none_built : Instruction
none_built = record { program = []; metas = []; payload = [] }

abbrev run : Result Instruction → Instruction
run (ok ix) = ix
run (err e) = none_built

abbrev built : Instruction
built = run (execute_instruction local_runtime program_id (key 1) intent sig)

built_ok : execute_instruction local_runtime program_id (key 1) intent sig ≡ ok built
unfolding execute_instruction signing_intent Intent.new
built_ok = refl

Builds-dispatch_example :
    (built.program ≡ program_id)
    × (process local_runtime program_id (infos built.metas) built.payload before
        ≡ Execute.process local_runtime program_id
            (infos built.metas)
            (drop 1 built.payload)
            before)
    × (length (drop 1 built.payload) ≡ 715)
    × (decode (take 49 (drop 1 built.payload)) ≡ Error.ok (from_intent intent))
    × (drop 49 (drop 1 built.payload) ≡ sig)
Builds-dispatch_example =
    Builds-dispatch local_runtime program_id (key 1) intent sig Instruction.execute
      (Execute.process local_runtime) built (infos built.metas) before intent-IsIntent
      (transfer_sol built built_ok)

other_account : key 2 ≢ key 1
unfolding byte_at
other_account h = absurd (omega (arith, ap (λ l. byte_at 0 l) h))

enough : 1120 + 500 ≤ (before (key 1)).lamports
unfolding ◌==ᵇ◌
enough = omega arith

fits : (before (key 2)).lamports + 500 < 2 ^ 64
unfolding ◌==ᵇ◌
fits = omega arith

execute_instruction-Transferred_example :
    (w' : World) × (process local_runtime program_id (infos built.metas) built.payload before
      ≡ Error.ok w')
    × Transferred local_runtime program_id
        (writable_info (key 1))
        (writable_info (key 2))
        (readonly_info (key 3))
        (from_intent intent)
        sig
        (key 2)
        500
        before
        w'
execute_instruction-Transferred_example =
    execute_instruction-Transferred local_runtime crates ed program_id (key 1) (key 2) 41 100 500
      sig before built (λ n. n) intent-IsIntent ready built_ok other_account refl enough fits

abbrev created : Result (Instruction × Bytes × ℕ)
created =
    initialize_instruction local_runtime program_id (key 2) 0 (key 7) hybrid_and (replicate 897 2)

abbrev initialize : Result (Instruction × Bytes × ℕ) → Instruction
initialize (ok x) = x.0
initialize (err e) = none_built

created_ok : created ≡ ok (initialize created, key 4, 254)
unfolding initialize_instruction initialize_data derive_hybrid_account is_implemented
created_ok = refl

initialize_instruction-process_example :
    (process local_runtime program_id [] (initialize created).payload before
      ≡ Initialize.process local_runtime program_id [] (drop 1 (initialize created).payload) before)
    × (parse (drop 1 (initialize created).payload)
        ≡ Error.ok (record {
          account_index = 0;
          owner_ed25519 = key 7;
          policy = hybrid_and;
          falcon_wire_pubkey = replicate 897 2;
        }))
    × (verify local_runtime program_id (key 2) 0 (key 4) ≡ Error.ok 254)
initialize_instruction-process_example =
    initialize_instruction-process 0 (key 7) hybrid_and (replicate 897 2) local_runtime program_id
      (key 2) (initialize created) (key 4) 254 [] before (omega arith) refl created_ok
