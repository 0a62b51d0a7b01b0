-- ===== src/Client/Rpc/Post.antt =====
-- client/src/rpc.rs: what reads the payer's file and posts a transaction.
use Prim.Native.String.{String, ◌++◌ as ◌<>◌}
use solana_hybrid_pq_account.Base.{List, ◌∷◌, Bytes}
use solana_hybrid_pq_account.Program.Runtime.{Instruction}
use solana_hybrid_pq_account.Client.Crates.{decoded, malformed}
use solana_hybrid_pq_account.Client.Error.{Result, ok, err, intent_format, ed25519_key, ok_or}
use solana_hybrid_pq_account.Client.Machine.{FilePath, Transaction, Os, M, ◌>>=◌, ◌>>◌, lift}
use solana_hybrid_pq_account.Client.Keys.Files.{read}
use solana_hybrid_pq_account.Client.Rpc.{Payer, Sdk, Node, max_polls, poll, sign_legacy_transaction}

unfoldable pub keypair_bytes : Os → Sdk → FilePath → Bytes → Result Bytes
keypair_bytes os sdk path bytes = elim (sdk.keypair_json bytes) [
  | decoded arr ↦ ok arr
  | malformed text ↦ err (intent_format (os.display path) ("payer keypair JSON: " <> text))
]

unfoldable pub load_payer : Os → Sdk → FilePath → M Payer
load_payer os sdk path = do
  bytes ← read os path
  arr ← lift (keypair_bytes os sdk path bytes)
  lift (ok_or (sdk.keypair_try_from arr) (ed25519_key "invalid payer keypair"))

module _ (sdk : Sdk) (node : Node) where
  -- The node has the transaction as soon as it is given to it, whatever it answers.
  abbrev pub post : Transaction → M (Unit {0})
  post tx m = (ok tt, record m { posted = tx ∷ m.posted })

  unfoldable pub send_and_confirm : String → Transaction → M String
  send_and_confirm url tx = do
    post tx
    sig ← lift (node.send_transaction url tx)
    lift (poll sdk node url sig max_polls 0)

  unfoldable pub send_instructions : String → Payer → List Instruction → M String
  send_instructions url payer instructions = do
    blockhash ← lift (node.get_latest_blockhash url)
    tx ← lift (sign_legacy_transaction sdk payer instructions blockhash)
    send_and_confirm url tx
