-- ===== src/Client/Rpc.antt =====
-- client/src/rpc.rs: the options of a broadcast, the nonce of an account, and the signature and
-- confirmation of a transaction. `Post` posts one.
pub mod Post
pub mod Confirmed
use Prim.Native.String.{String, ◌++◌ as ◌<>◌}
use text.Mathlib.Text.{◌==◌ as str_eq}
use solana_hybrid_pq_account.Base.{
  ℕ, ◌+◌, ◌-◌, ◌≡◌, Bool, true, false, ◌||◌, Option, none, some, List, [], ◌∷◌, Bytes, length,
  replicate, if◌then◌else◌, zero, suc,
}
use solana_hybrid_pq_account.Base.Layout.{zeros}
use solana_hybrid_pq_account.Core.Error
use solana_hybrid_pq_account.Core.Account.Slices.{nonce_from_slice}
use solana_hybrid_pq_account.Program.Runtime.{Instruction}
use solana_hybrid_pq_account.Client.Crates.{Decoded, decoded, malformed}
use solana_hybrid_pq_account.Client.Error.{
  Result, ok, err, intent_format, rpc, require, ok_or, ◌>>=◌, ◌>>◌,
}
use solana_hybrid_pq_account.Client.Machine.{FilePath, Transaction}

pub record BroadcastOpts : Type 0 where
  pub broadcast : Bool
  pub rpc_url : Option String
  pub payer_path : Option FilePath

unfoldable pub require_for_broadcast : BroadcastOpts → Result (String × FilePath)
require_for_broadcast o = do
  require o.broadcast
      (intent_format "broadcast" "internal: require_for_broadcast called without --broadcast")
  url ← ok_or o.rpc_url (intent_format "rpc-url" "--broadcast requires --rpc-url")
  payer ← ok_or o.payer_path (intent_format "payer" "--broadcast requires --payer <keypair.json>")
  ok (url, payer)

-- solana_keypair's `Keypair`
pub record Payer : Type 0 where
  pub pubkey : Bytes
  pub secret : Bytes

-- The `solana_*` crates, bincode, and serde_json on a keypair file.
pub record Sdk : Type 0 where
  pub parse_key : String → Option Bytes
  pub show_key : Bytes → String
  pub keypair_json : Bytes → Decoded
  pub keypair_try_from : Bytes → Option Payer
  -- At least one, the payer's.
  pub required_signatures : Bytes → List Instruction → ℕ
  pub serialize_message : Bytes → List Instruction → Bytes → Result Bytes
  pub sign_message : Payer → Bytes → Bytes

-- The entry of a signature status: none, an error, or the confirmation status.
pub data Status : Type 0 where
  unknown : Status
  failed confirmation : String → Status

-- What a node answers, by its address: the calls of `Rpc::call`, with the fields that are read.
pub record Node : Type 0 where
  pub get_latest_blockhash : String → Result Bytes
  pub get_account_data : String → Bytes → Result Bytes
  pub send_transaction : String → Transaction → Result String
  -- The number of the poll is the last argument.
  pub signature_status : String → String → ℕ → Result Status

abbrev pub max_polls : ℕ
max_polls = 60

module _ (sdk : Sdk) where
  unfoldable pub sign_legacy_transaction : Payer → List Instruction → Bytes → Result Transaction
  sign_legacy_transaction payer instructions blockhash = do
    message_bytes ← sdk.serialize_message payer.pubkey instructions blockhash
    let n = sdk.required_signatures payer.pubkey instructions
    ok (record {
      payer = payer.pubkey;
      instructions = instructions;
      recent_blockhash = blockhash;
      signatures = sdk.sign_message payer message_bytes ∷ replicate (n - 1) (zeros 64);
    })

module _ (sdk : Sdk) (node : Node) where
  unfoldable pub get_hybrid_nonce : String → Bytes → Result ℕ
  get_hybrid_nonce url account = do
    content ← node.get_account_data url account
    elim (nonce_from_slice content) [
      | Error.err e ↦
          err (intent_format (sdk.show_key account) "account is not a DualKey HybridAccount")
      | Error.ok n ↦ ok n
    ]

  -- The polls that are left, and the number of the next one.
  unfoldable pub poll : String → String → ℕ → ℕ → Result String
  poll url sig zero i = err (rpc ("transaction " <> sig <> " not confirmed in time"))
  poll url sig (suc left) i =
      let rest = poll url sig left (i + 1) in
      elim (node.signature_status url sig i) [
        | err e ↦ err e
        | ok status ↦ elim status [
          | unknown ↦ rest
          | failed text ↦ err (rpc ("transaction " <> sig <> " failed: " <> text))
          | confirmation level ↦
              if str_eq level "confirmed" || str_eq level "finalized" then ok sig else rest
        ]
      ]
