-- ===== src/Client/Submit.antt =====
-- client/src/submit.rs: what the commands sign, build, post and write to their output file. The lines
-- that they print are left out.
pub mod Lifecycle
pub mod Social
pub mod Posted
pub mod Signed
use Prim.Native.String.{String}
use solana_hybrid_pq_account.Base.{
  ℕ, Bool, not, Option, none, some, List, [], ◌∷◌, Bytes, length, ◌==ᵇ◌, if◌then◌else◌,
}
use solana_hybrid_pq_account.Core.Intent.{Action, transfer_sol, AuthorizationIntent}
use solana_hybrid_pq_account.Core.Canonical.{canonical_preimage}
use solana_hybrid_pq_account.Core.Policy.{AuthorizationPolicy, as_u8, name}
use solana_hybrid_pq_account.Program.Runtime.{Runtime, Instruction, AccountMeta}
use solana_hybrid_pq_account.Client.Crates.{Crates}
use solana_hybrid_pq_account.Client.Error.{
  Result, ok, err, invalid_address, intent_format, require, ok_or,
}
use solana_hybrid_pq_account.Client.FalconInterop.{sign_to_wire}
use solana_hybrid_pq_account.Client.Keys.{Ed25519Keypair, FalconKeypair, public_bytes}
use solana_hybrid_pq_account.Client.Machine.{
  FilePath, Machine, Os, M, ◌>>=◌, ◌>>◌, pure, lift, draw,
}
use solana_hybrid_pq_account.Client.Keys.Files.{
  PublicKeys, Json, public_mode, write_with_mode, load_ed25519, load_falcon, load_public,
  falcon_public_key_hash,
}
use solana_hybrid_pq_account.Client.Onchain.{
  initialize_instruction, signing_intent, ed25519_precompile_instruction, execute_instruction,
}
use solana_hybrid_pq_account.Client.Rpc.{
  BroadcastOpts, require_for_broadcast, Sdk, Node, get_hybrid_nonce,
}
use solana_hybrid_pq_account.Client.Rpc.Post.{load_payer, send_instructions}

-- A field of a JSON object that is written.
pub data Value : Type 0 where
  text : String → Value
  number : ℕ → Value
  null : Value
  metas : List AccountMeta → Value

abbrev pub Object : Type 0
Object = List (String × Value)

-- The code that is not the repository's.
pub record Env : Type 0 where
  pub os : Os
  pub js : Json
  pub c : Crates
  pub rt : Runtime
  pub sdk : Sdk
  pub node : Node
  pub to_vec_pretty : Object → Bytes

pub record LifecycleParams : Type 0 where
  pub keys_dir : String
  pub program_id : String
  pub hybrid_account : String
  pub nonce : Option ℕ
  pub expiry_slot : ℕ
  pub broadcast : BroadcastOpts
  pub out : Option FilePath

-- A signature in a `json!` object, and in an artifact, which skips one that is not there.
abbrev pub signature_value : Option String → Value
signature_value none = null
signature_value (some sig) = text sig

abbrev pub signature_field : Option String → Object
signature_field none = []
signature_field (some sig) = ("signature", text sig) ∷ []

module _ (e : Env) where
  unfoldable pub parse_pubkey : String → String → Result Bytes
  parse_pubkey field value = ok_or (e.sdk.parse_key value) (invalid_address field)

  unfoldable pub resolve_nonce : Bytes → Option ℕ → BroadcastOpts → Result ℕ
  resolve_nonce hybrid (some n) broadcast = ok n
  resolve_nonce hybrid none broadcast = elim broadcast.rpc_url [
    | none ↦ err (
        intent_format "nonce"
          "--nonce required unless --rpc-url is set (reads HybridAccount nonce)")
    | some url ↦ get_hybrid_nonce e.sdk e.node url hybrid
  ]

  -- `falcon_interop::sign_to_wire(&digest, secret)?`
  unfoldable pub sign_wire : Bytes → Bytes → M Bytes
  sign_wire digest secret = do
    call ← draw
    signed ← lift (sign_to_wire e.c call digest secret)
    pure (signed.1).bytes

  -- What a command does under `if broadcast.broadcast`.
  unfoldable pub send : BroadcastOpts → List Instruction → M (Option String)
  send broadcast instructions = do
    target ← lift (require_for_broadcast broadcast)
    payer ← load_payer e.os e.sdk target.1
    sig ← send_instructions e.sdk e.node target.0 payer instructions
    pure (some sig)

  unfoldable pub submit : BroadcastOpts → List Instruction → M (Option String)
  submit broadcast instructions =
      let sending = send broadcast instructions in
      if broadcast.broadcast then sending else pure none

  -- `if let Some(path) = out`
  unfoldable pub write_out : Option FilePath → Object → M (Unit {0})
  write_out none object = pure tt
  write_out (some path) object = write_with_mode e.os path (e.to_vec_pretty object) public_mode

  -- `init` sends one instruction, and only where the payer is the creator.
  unfoldable pub send_init : Bytes → BroadcastOpts → Instruction → M (Option String)
  send_init creator broadcast instruction = do
    target ← lift (require_for_broadcast broadcast)
    payer ← load_payer e.os e.sdk target.1
    lift (
        require (payer.pubkey ==ᵇ creator)
          (intent_format "payer" "payer pubkey must equal --creator for Initialize"))
    sig ← send_instructions e.sdk e.node target.0 payer (instruction ∷ [])
    pure (some sig)

  unfoldable pub submit_init : Bytes → BroadcastOpts → Instruction → M (Option String)
  submit_init creator broadcast instruction =
      let sending = send_init creator broadcast instruction in
      if broadcast.broadcast then sending else pure none

  unfoldable pub init :
      String
      → ℕ
      → String
      → String
      → AuthorizationPolicy
      → Option FilePath
      → BroadcastOpts
      → M (Unit {0})
  init keys_dir account_index program creator_text policy out broadcast = do
    program_id ← lift (parse_pubkey "program_id" program)
    creator ← lift (parse_pubkey "creator" creator_text)
    public ← load_public e.os keys_dir
    built ← lift (
        initialize_instruction e.rt program_id creator account_index public.ed25519 policy
          public.falcon_wire)
    signature ← submit_init creator broadcast built.0
    write_out out (
        ("format", text "dualkey-initialize-v1")
        ∷ ("program_id", text (e.sdk.show_key program_id))
        ∷ ("creator", text (e.sdk.show_key creator))
        ∷ ("hybrid_account", text (e.sdk.show_key built.1))
        ∷ ("bump", number built.2)
        ∷ ("account_index", number account_index)
        ∷ ("policy", number (as_u8 policy))
        ∷ ("policy_name", text (name policy))
        ∷ ("owner_ed25519", text (e.c.hex_encode public.ed25519))
        ∷ (
          "falcon512_public_key_sha256",
          text (e.c.hex_encode (falcon_public_key_hash e.rt public)),
        )
        ∷ ("accounts", metas (built.0).metas)
        ∷ ("data_len", number (length (built.0).payload))
        ∷ ("data_hex", text (e.c.hex_encode (built.0).payload))
        ∷ signature_field signature)

  unfoldable pub transfer :
      String
      → String
      → String
      → String
      → ℕ
      → Option ℕ
      → ℕ
      → Option FilePath
      → BroadcastOpts
      → M (Unit {0})
  transfer keys_dir program account to lamports nonce expiry_slot out broadcast = do
    program_id ← lift (parse_pubkey "program_id" program)
    hybrid_account ← lift (parse_pubkey "account" account)
    recipient ← lift (parse_pubkey "to" to)
    ed ← load_ed25519 e.os keys_dir
    falcon ← load_falcon e.os e.js e.c keys_dir
    n ← lift (resolve_nonce hybrid_account nonce broadcast)
    let intent =
        signing_intent program_id hybrid_account n expiry_slot (transfer_sol recipient lamports)
    let digest = e.rt.sha256 (canonical_preimage intent)
    let ed_sig = e.c.ed25519_sign ed.signing digest
    wire ← sign_wire digest falcon.secret
    let ed_ix = ed25519_precompile_instruction e.c digest ed_sig (public_bytes e.c ed)
    exec_ix ← lift (execute_instruction e.rt program_id hybrid_account intent wire)
    signature ← submit broadcast (ed_ix ∷ exec_ix ∷ [])
    write_out out (
        ("format", text "dualkey-transfer-v1")
        ∷ ("program_id", text (e.sdk.show_key program_id))
        ∷ ("hybrid_account", text (e.sdk.show_key hybrid_account))
        ∷ ("recipient", text (e.sdk.show_key recipient))
        ∷ ("lamports", number lamports)
        ∷ ("nonce", number n)
        ∷ ("expiry_slot", number expiry_slot)
        ∷ ("digest", text (e.c.hex_encode digest))
        ∷ ("ed25519_precompile_data_hex", text (e.c.hex_encode ed_ix.payload))
        ∷ ("execute_data_hex", text (e.c.hex_encode exec_ix.payload))
        ∷ ("execute_accounts", metas exec_ix.metas)
        ∷ signature_field signature)
