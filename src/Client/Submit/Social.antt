-- ===== src/Client/Submit/Social.antt =====
-- client/src/submit.rs: the commands of the social recovery, and the transfer of tokens.
use Prim.Native.String.{String}
use solana_hybrid_pq_account.Base.{ℕ, Bool, Option, [], ◌∷◌, Bytes, if◌then◌else◌}
use solana_hybrid_pq_account.Base.Layout.{zeros}
use solana_hybrid_pq_account.Core.ChainDomain.{chain_domain_localnet}
use solana_hybrid_pq_account.Core.Intent
use solana_hybrid_pq_account.Core.Intent.{
  AuthorizationIntent, set_recovery_config, cancel_social_recovery,
}
use solana_hybrid_pq_account.Core.Recovery.{social_recover_preimage}
use solana_hybrid_pq_account.Program.Runtime.{Instruction}
use solana_hybrid_pq_account.Client.Keys.Files.{load_ed25519, load_falcon}
use solana_hybrid_pq_account.Client.Machine.{FilePath, M, ◌>>=◌, lift}
use solana_hybrid_pq_account.Client.Onchain.{
  signing_intent, derive_recovery_config, execute_transfer_spl_instruction_with_program,
}
use solana_hybrid_pq_account.Client.Onchain.Lifecycle
use solana_hybrid_pq_account.Client.Rpc.{BroadcastOpts, require_for_broadcast}
use solana_hybrid_pq_account.Client.Rpc.Post.{load_payer, send_instructions}
use solana_hybrid_pq_account.Client.Submit.{
  text, number, Env, LifecycleParams, signature_value, parse_pubkey, resolve_nonce, sign_wire,
  submit, write_out,
}
use solana_hybrid_pq_account.Client.Submit.Lifecycle.{digest_of, signed_by, hex}

pub record TransferSplParams : Type 0 where
  pub keys_dir : String
  pub program_id : String
  pub hybrid_account : String
  pub creator : String
  pub source : String
  pub mint : String
  pub destination : String
  pub amount : ℕ
  pub nonce : Option ℕ
  pub expiry_slot : ℕ
  pub token_2022 : Bool
  pub broadcast : BroadcastOpts
  pub out : Option FilePath

module _ (e : Env) where
  -- The two branches of `social_set_config`: with the payer of the broadcast, and without one.
  unfoldable pub set_config_online :
      LifecycleParams
      → Bytes
      → Bytes
      → Bytes
      → AuthorizationIntent
      → Instruction
      → Bytes
      → M (Unit {0})
  set_config_online params program_id hybrid_account recovery_config intent ed_ix wire = do
    target ← lift (require_for_broadcast params.broadcast)
    payer ← load_payer e.os e.sdk target.1
    ix ← lift (
        Lifecycle.set_recovery_config_instruction e.rt program_id hybrid_account recovery_config
          payer.pubkey intent wire)
    sig ← send_instructions e.sdk e.node target.0 payer (ed_ix ∷ ix ∷ [])
    write_out e params.out (
        ("digest", hex e (digest_of e intent))
        ∷ ("nonce", number intent.nonce)
        ∷ ("recovery_config", text (e.sdk.show_key recovery_config))
        ∷ ("ed25519_precompile_data_hex", hex e ed_ix.payload)
        ∷ ("instruction_data_hex", hex e ix.payload)
        ∷ ("signature", text sig)
        ∷ [])

  unfoldable pub set_config_offline :
      LifecycleParams
      → Bytes
      → Bytes
      → Bytes
      → AuthorizationIntent
      → Instruction
      → Bytes
      → M (Unit {0})
  set_config_offline params program_id hybrid_account recovery_config intent ed_ix wire = do
    ix ← lift (
        Lifecycle.set_recovery_config_instruction e.rt program_id hybrid_account recovery_config
          (zeros 32) intent wire)
    write_out e params.out (
        ("digest", hex e (digest_of e intent))
        ∷ ("nonce", number intent.nonce)
        ∷ ("recovery_config", text (e.sdk.show_key recovery_config))
        ∷ ("ed25519_precompile_data_hex", hex e ed_ix.payload)
        ∷ ("instruction_data_hex", hex e ix.payload)
        ∷ [])

  unfoldable pub social_set_config : LifecycleParams → String → ℕ → M (Unit {0})
  social_set_config params guardian delay_slots = do
    program_id ← lift (parse_pubkey e "program_id" params.program_id)
    hybrid_account ← lift (parse_pubkey e "account" params.hybrid_account)
    guardian_ed25519 ← lift (parse_pubkey e "guardian" guardian)
    found ← lift (derive_recovery_config e.rt program_id hybrid_account)
    ed ← load_ed25519 e.os params.keys_dir
    falcon ← load_falcon e.os e.js e.c params.keys_dir
    nonce ← lift (resolve_nonce e hybrid_account params.nonce params.broadcast)
    let intent =
        signing_intent program_id hybrid_account nonce params.expiry_slot
          (set_recovery_config guardian_ed25519 delay_slots)
    wire ← sign_wire e (digest_of e intent) falcon.secret
    let ed_ix = signed_by e ed (digest_of e intent)
    let online = set_config_online params program_id hybrid_account found.0 intent ed_ix wire
    let offline = set_config_offline params program_id hybrid_account found.0 intent ed_ix wire
    if params.broadcast.broadcast then online else offline

  unfoldable pub social_initiate :
      String → String → String → String → Option ℕ → BroadcastOpts → Option FilePath → M (Unit {0})
  social_initiate program account new_owner guardian_keys nonce broadcast out = do
    program_id ← lift (parse_pubkey e "program_id" program)
    hybrid_account ← lift (parse_pubkey e "account" account)
    new_ed25519 ← lift (parse_pubkey e "new-owner" new_owner)
    found ← lift (derive_recovery_config e.rt program_id hybrid_account)
    guardian ← load_ed25519 e.os guardian_keys
    n ← lift (resolve_nonce e hybrid_account nonce broadcast)
    let digest =
        e.rt.sha256
          (social_recover_preimage chain_domain_localnet program_id hybrid_account new_ed25519 n)
    let ed_ix = signed_by e guardian digest
    let ix =
        Lifecycle.initiate_social_recovery_instruction e.rt program_id hybrid_account found.0
          new_ed25519
    signature ← submit e broadcast (ed_ix ∷ ix ∷ [])
    write_out e out (
        ("digest", hex e digest)
        ∷ ("nonce", number n)
        ∷ ("recovery_config", text (e.sdk.show_key found.0))
        ∷ ("ed25519_precompile_data_hex", hex e ed_ix.payload)
        ∷ ("instruction_data_hex", hex e ix.payload)
        ∷ ("signature", signature_value signature)
        ∷ [])

  unfoldable pub social_finalize : String → String → BroadcastOpts → Option FilePath → M (Unit {0})
  social_finalize program account broadcast out = do
    program_id ← lift (parse_pubkey e "program_id" program)
    hybrid_account ← lift (parse_pubkey e "account" account)
    found ← lift (derive_recovery_config e.rt program_id hybrid_account)
    let ix = Lifecycle.finalize_social_recovery_instruction e.rt program_id hybrid_account found.0
    signature ← submit e broadcast (ix ∷ [])
    write_out e out (
        ("recovery_config", text (e.sdk.show_key found.0))
        ∷ ("instruction_data_hex", hex e ix.payload)
        ∷ ("signature", signature_value signature)
        ∷ [])

  unfoldable pub social_cancel : LifecycleParams → M (Unit {0})
  social_cancel params = do
    program_id ← lift (parse_pubkey e "program_id" params.program_id)
    hybrid_account ← lift (parse_pubkey e "account" params.hybrid_account)
    found ← lift (derive_recovery_config e.rt program_id hybrid_account)
    ed ← load_ed25519 e.os params.keys_dir
    falcon ← load_falcon e.os e.js e.c params.keys_dir
    nonce ← lift (resolve_nonce e hybrid_account params.nonce params.broadcast)
    let intent =
        signing_intent program_id hybrid_account nonce params.expiry_slot cancel_social_recovery
    let digest = digest_of e intent
    wire ← sign_wire e digest falcon.secret
    let ed_ix = signed_by e ed digest
    ix ← lift (
        Lifecycle.cancel_social_recovery_instruction e.rt program_id hybrid_account found.0 intent
          wire)
    signature ← submit e params.broadcast (ed_ix ∷ ix ∷ [])
    write_out e params.out (
        ("digest", hex e digest)
        ∷ ("nonce", number nonce)
        ∷ ("recovery_config", text (e.sdk.show_key found.0))
        ∷ ("ed25519_precompile_data_hex", hex e ed_ix.payload)
        ∷ ("instruction_data_hex", hex e ix.payload)
        ∷ ("signature", signature_value signature)
        ∷ [])

  unfoldable pub transfer_spl : TransferSplParams → M (Unit {0})
  transfer_spl params = do
    program_id ← lift (parse_pubkey e "program_id" params.program_id)
    hybrid_account ← lift (parse_pubkey e "account" params.hybrid_account)
    creator ← lift (parse_pubkey e "creator" params.creator)
    source ← lift (parse_pubkey e "source" params.source)
    mint ← lift (parse_pubkey e "mint" params.mint)
    destination ← lift (parse_pubkey e "destination" params.destination)
    let token_program =
        if params.token_2022 then e.rt.token_2022_program_id else e.rt.token_program_id
    ed ← load_ed25519 e.os params.keys_dir
    falcon ← load_falcon e.os e.js e.c params.keys_dir
    nonce ← lift (resolve_nonce e hybrid_account params.nonce params.broadcast)
    let intent =
        signing_intent program_id hybrid_account nonce params.expiry_slot
          (Intent.transfer_spl destination params.amount)
    let digest = digest_of e intent
    wire ← sign_wire e digest falcon.secret
    let ed_ix = signed_by e ed digest
    exec_ix ← lift (
        execute_transfer_spl_instruction_with_program e.rt program_id hybrid_account creator source
          mint token_program intent wire)
    signature ← submit e params.broadcast (ed_ix ∷ exec_ix ∷ [])
    write_out e params.out (
        ("digest", hex e digest)
        ∷ ("nonce", number nonce)
        ∷ ("token_program", text (e.sdk.show_key token_program))
        ∷ ("ed25519_precompile_data_hex", hex e ed_ix.payload)
        ∷ ("execute_data_hex", hex e exec_ix.payload)
        ∷ ("signature", signature_value signature)
        ∷ [])
