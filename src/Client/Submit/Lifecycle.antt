-- ===== src/Client/Submit/Lifecycle.antt =====
-- client/src/submit.rs: the commands that change an account's keys, policy and recovery.
use Prim.Native.String.{String}
use solana_hybrid_pq_account.Base.{ℕ, not, none, some, [], ◌∷◌, Bytes}
use solana_hybrid_pq_account.Base.Layout.{zeros}
use solana_hybrid_pq_account.Core.RecoveryOp.{enable, disable, rotate_ed25519 as to_ed25519}
use solana_hybrid_pq_account.Core.Intent
use solana_hybrid_pq_account.Core.Intent.{
  Action, AuthorizationIntent, recover_account, rotate_ed25519_key, rotate_falcon_key,
}
use solana_hybrid_pq_account.Core.Canonical.{canonical_preimage}
use solana_hybrid_pq_account.Core.Policy.{AuthorizationPolicy, as_u8}
use solana_hybrid_pq_account.Program.Runtime.{Instruction}
use solana_hybrid_pq_account.Client.Error.{Result, intent_format, require}
use solana_hybrid_pq_account.Client.Keys.{Ed25519Keypair, public_bytes}
use solana_hybrid_pq_account.Client.Keys.Files.{load_ed25519, load_falcon}
use solana_hybrid_pq_account.Client.Machine.{M, ◌>>=◌, ◌>>◌, lift}
use solana_hybrid_pq_account.Client.Onchain.{
  signing_intent, ed25519_precompile_instruction, derive_recovery_config,
}
use solana_hybrid_pq_account.Client.Onchain.Lifecycle
use solana_hybrid_pq_account.Client.Submit.{
  Value, text, number, Env, LifecycleParams, signature_value, parse_pubkey, resolve_nonce,
  sign_wire, submit, write_out,
}

module _ (e : Env) where
  -- `canonical_digest`
  abbrev pub digest_of : AuthorizationIntent → Bytes
  digest_of intent = e.rt.sha256 (canonical_preimage intent)

  -- The precompile instruction over a digest, with its signature.
  abbrev pub signed_by : Ed25519Keypair → Bytes → Instruction
  signed_by ed digest =
      ed25519_precompile_instruction e.c digest (e.c.ed25519_sign ed.signing digest)
        (public_bytes e.c ed)

  abbrev pub hex : Bytes → Value
  hex b = text (e.c.hex_encode b)

  -- The function that builds the instruction takes the program, the account, the intent and the
  -- Falcon signature.
  unfoldable pub sign_lifecycle :
      LifecycleParams
      → Action
      → (Bytes → Bytes → AuthorizationIntent → Bytes → Result Instruction)
      → M (Unit {0})
  sign_lifecycle params action build_ix = do
    program_id ← lift (parse_pubkey e "program_id" params.program_id)
    hybrid_account ← lift (parse_pubkey e "account" params.hybrid_account)
    ed ← load_ed25519 e.os params.keys_dir
    falcon ← load_falcon e.os e.js e.c params.keys_dir
    nonce ← lift (resolve_nonce e hybrid_account params.nonce params.broadcast)
    let intent = signing_intent program_id hybrid_account nonce params.expiry_slot action
    let digest = digest_of intent
    wire ← sign_wire e digest falcon.secret
    let ed_ix = signed_by ed digest
    ix ← lift (build_ix program_id hybrid_account intent wire)
    signature ← submit e params.broadcast (ed_ix ∷ ix ∷ [])
    write_out e params.out (
        ("digest", hex digest)
        ∷ ("nonce", number nonce)
        ∷ ("ed25519_precompile_data_hex", hex ed_ix.payload)
        ∷ ("instruction_data_hex", hex ix.payload)
        ∷ ("signature", signature_value signature)
        ∷ [])

  unfoldable pub change_policy : LifecycleParams → AuthorizationPolicy → ℕ → M (Unit {0})
  change_policy params new_policy threshold =
      sign_lifecycle params (Intent.change_policy (as_u8 new_policy) threshold)
        (Lifecycle.change_policy_instruction e.rt)

  unfoldable pub recover_enable : LifecycleParams → M (Unit {0})
  recover_enable params =
      sign_lifecycle params (recover_account enable (zeros 32)) (λ program_id hybrid intent falcon.
        Lifecycle.recover_account_instruction e.rt program_id hybrid intent falcon none)

  unfoldable pub recover_disable : LifecycleParams → M (Unit {0})
  recover_disable params =
      sign_lifecycle params (recover_account disable (zeros 32)) (λ program_id hybrid intent falcon.
        Lifecycle.recover_account_instruction e.rt program_id hybrid intent falcon none)

  -- By the Falcon key alone.
  unfoldable pub recover_rotate_ed25519 : LifecycleParams → String → M (Unit {0})
  recover_rotate_ed25519 params new_owner = do
    new_ed25519 ← lift (parse_pubkey e "new-owner" new_owner)
    program_id ← lift (parse_pubkey e "program_id" params.program_id)
    hybrid_account ← lift (parse_pubkey e "account" params.hybrid_account)
    found ← lift (derive_recovery_config e.rt program_id hybrid_account)
    let recovery_config = found.0
    falcon ← load_falcon e.os e.js e.c params.keys_dir
    nonce ← lift (resolve_nonce e hybrid_account params.nonce params.broadcast)
    let intent =
        signing_intent program_id hybrid_account nonce params.expiry_slot
          (recover_account to_ed25519 new_ed25519)
    let digest = digest_of intent
    wire ← sign_wire e digest falcon.secret
    ix ← lift (
        Lifecycle.recover_account_instruction e.rt program_id hybrid_account intent wire
          (some recovery_config))
    signature ← submit e params.broadcast (ix ∷ [])
    write_out e params.out (
        ("digest", hex digest)
        ∷ ("nonce", number nonce)
        ∷ ("recovery_config", text (e.sdk.show_key recovery_config))
        ∷ ("instruction_data_hex", hex ix.payload)
        ∷ ("signature", signature_value signature)
        ∷ [])

  unfoldable pub rotate_ed25519 : LifecycleParams → String → M (Unit {0})
  rotate_ed25519 params new_owner = do
    new_pubkey ← lift (parse_pubkey e "new-owner" new_owner)
    program_id ← lift (parse_pubkey e "program_id" params.program_id)
    hybrid_account ← lift (parse_pubkey e "account" params.hybrid_account)
    found ← lift (derive_recovery_config e.rt program_id hybrid_account)
    let recovery_config = found.0
    ed ← load_ed25519 e.os params.keys_dir
    falcon ← load_falcon e.os e.js e.c params.keys_dir
    nonce ← lift (resolve_nonce e hybrid_account params.nonce params.broadcast)
    let intent =
        signing_intent program_id hybrid_account nonce params.expiry_slot
          (rotate_ed25519_key new_pubkey)
    let digest = digest_of intent
    wire ← sign_wire e digest falcon.secret
    let ed_ix = signed_by ed digest
    ix ← lift (
        Lifecycle.rotate_ed25519_instruction e.rt program_id hybrid_account recovery_config intent
          wire)
    signature ← submit e params.broadcast (ed_ix ∷ ix ∷ [])
    write_out e params.out (
        ("digest", hex digest)
        ∷ ("nonce", number nonce)
        ∷ ("recovery_config", text (e.sdk.show_key recovery_config))
        ∷ ("ed25519_precompile_data_hex", hex ed_ix.payload)
        ∷ ("instruction_data_hex", hex ix.payload)
        ∷ ("signature", signature_value signature)
        ∷ [])

  unfoldable pub rotate_falcon : LifecycleParams → String → M (Unit {0})
  rotate_falcon params new_falcon_keys = do
    lift (
        require (not params.broadcast.broadcast) (
          intent_format "broadcast"
            "RotateFalconKey instruction data is ~2279 bytes and cannot fit a legacy transaction; omit --broadcast and use --out (v0 + ALT submission is out of scope)"))
    program_id ← lift (parse_pubkey e "program_id" params.program_id)
    hybrid_account ← lift (parse_pubkey e "account" params.hybrid_account)
    ed ← load_ed25519 e.os params.keys_dir
    falcon ← load_falcon e.os e.js e.c params.keys_dir
    new_falcon ← load_falcon e.os e.js e.c new_falcon_keys
    let new_wire = new_falcon.public
    let new_pubkey_hash = e.rt.sha256 new_wire
    nonce ← lift (resolve_nonce e hybrid_account params.nonce params.broadcast)
    let intent =
        signing_intent program_id hybrid_account nonce params.expiry_slot
          (rotate_falcon_key new_pubkey_hash)
    let digest = digest_of intent
    auth_wire ← sign_wire e digest falcon.secret
    pop_wire ← sign_wire e digest new_falcon.secret
    let ed_ix = signed_by ed digest
    ix ← lift (
        Lifecycle.rotate_falcon_instruction e.rt program_id hybrid_account intent auth_wire new_wire
          pop_wire)
    write_out e params.out (
        ("digest", hex digest)
        ∷ ("nonce", number nonce)
        ∷ ("new_falcon_public_key_sha256", hex new_pubkey_hash)
        ∷ ("ed25519_precompile_data_hex", hex ed_ix.payload)
        ∷ ("instruction_data_hex", hex ix.payload)
        ∷ [])
