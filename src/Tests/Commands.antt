-- ===== src/Tests/Commands.antt =====
-- A transfer and a change of policy on the machine that has generated its keys.
use Prim.Native.String.{String}
use solana_hybrid_pq_account.Base.{
  ℕ, ◌<◌, ◌≡◌, ◌↔◌, refl, ap, true, none, some, [], ◌==◌, Bytes, if◌then◌else◌,
}
use solana_hybrid_pq_account.Base.Buffer.{slice, write}
use solana_hybrid_pq_account.Base.Layout.{zeros}
use solana_hybrid_pq_account.Core.Intent
use solana_hybrid_pq_account.Core.Intent.{Action, transfer_sol}
use solana_hybrid_pq_account.Client.Crates.{decoded, malformed}
use solana_hybrid_pq_account.Client.Error.{Result, ok}
use solana_hybrid_pq_account.Client.FalconInterop.{sign_to_wire, from_encoded_bytes}
use solana_hybrid_pq_account.Client.Keys.{public_bytes, id_json_bytes, from_seed}
use solana_hybrid_pq_account.Client.Keys.Files.{
  key_path, ed25519_id_file, read, read_exact_len, load_ed25519, load_falcon, write_with_mode,
}
use solana_hybrid_pq_account.Client.Machine.{Machine}
use solana_hybrid_pq_account.Client.Onchain.{
  execute_instruction, execute_data, signing_intent, signing_intent_with_domain,
  encode_execute_intent_wire,
}
use solana_hybrid_pq_account.Client.Rpc.{
  BroadcastOpts, require_for_broadcast, Sdk, Node, unknown, confirmation, max_polls, poll,
  sign_legacy_transaction,
}
use solana_hybrid_pq_account.Client.Rpc.Confirmed.{ConfirmedAt, poll_iff}
use solana_hybrid_pq_account.Client.Rpc.Post.{
  load_payer, keypair_bytes, send_and_confirm, send_instructions,
}
use solana_hybrid_pq_account.Client.Submit.{
  Env, parse_pubkey, resolve_nonce, sign_wire, send, submit, write_out, transfer,
}
use solana_hybrid_pq_account.Client.Submit.Signed.{Signed, transfer-Signed}
use solana_hybrid_pq_account.Tests.Fixture.{key}
use solana_hybrid_pq_account.Tests.Crates.{crates, hex_encode, hex_decode, local_runtime}
use solana_hybrid_pq_account.Tests.Keygen.{os, js, after}

abbrev sdk : Sdk
sdk = record {
  parse_key = λ s. elim (hex_decode s) [ decoded b ↦ some b | malformed text ↦ none ];
  show_key = hex_encode;
  keypair_json = decoded;
  keypair_try_from = λ b. some (record { pubkey = slice 32 32 b; secret = slice 0 32 b });
  required_signatures = λ payer instructions. 1;
  serialize_message = λ payer instructions blockhash. ok blockhash;
  sign_message = λ payer message. message;
}

-- The second poll finds the transaction confirmed.
abbrev node : Node
node = record {
  get_latest_blockhash = λ url. ok (key 12);
  get_account_data = λ url account. ok [];
  send_transaction = λ url tx. ok "signature";
  signature_status = λ url sig i. if i == 0 then ok unknown else ok (confirmation "confirmed");
}

abbrev e : Env
e = record {
  os = os;
  js = js;
  c = crates;
  rt = local_runtime;
  sdk = sdk;
  node = node;
  to_vec_pretty = λ object. [];
}

abbrev broadcast : BroadcastOpts
broadcast = record {
  broadcast = true;
  rpc_url = some "http://localhost:8899";
  payer_path = some (key_path "keys" ed25519_id_file);
}

succeeds :
    (outcome : Result (Unit {0}) × Machine) → outcome.0 ≡ ok tt → outcome ≡ (ok tt, outcome.1)
succeeds outcome h = ap (λ r. (r, outcome.1)) h

abbrev moved : Result (Unit {0}) × Machine
moved =
    transfer e "keys" (hex_encode (key 9)) (hex_encode (key 1)) (hex_encode (key 14)) 1000 (some 7)
      99 (some (key_path "." "transfer.json")) broadcast after

moved_ok : moved.0 ≡ ok tt
unfolding slice transfer parse_pubkey resolve_nonce sign_wire send submit write_out load_ed25519
    load_falcon read_exact_len read from_seed sign_to_wire from_encoded_bytes execute_instruction
    execute_data signing_intent signing_intent_with_domain encode_execute_intent_wire Intent.new
    require_for_broadcast load_payer keypair_bytes send_instructions send_and_confirm
    sign_legacy_transaction poll write_with_mode id_json_bytes public_bytes write zeros
moved_ok = refl

transfer-Signed_example :
    (recipient : Bytes) × (parse_pubkey e "to" (hex_encode (key 14)) ≡ ok recipient)
    × Signed e "keys"
        (hex_encode (key 9))
        (hex_encode (key 1))
        (some 7)
        99
        broadcast
        (transfer_sol recipient 1000)
        (execute_instruction local_runtime)
        after
        moved.1
transfer-Signed_example =
    transfer-Signed e "keys" (hex_encode (key 9)) (hex_encode (key 1)) (hex_encode (key 14)) 1000
      (some 7) 99 (some (key_path "." "transfer.json")) broadcast after (succeeds moved moved_ok)

abbrev url : String
url = "http://localhost:8899"

abbrev sig : String
sig = "signature"

-- The second poll confirms the transaction.
poll_iff_example :
    (poll sdk node url sig max_polls 0 ≡ ok sig)
    ↔ ((sig ≡ sig) × (j : ℕ) × (j < max_polls) × ConfirmedAt sdk node url sig 0 j)
poll_iff_example = poll_iff sdk node url sig max_polls 0 sig
