-- ===== src/Client/Submit/Signed.antt =====
-- What a command that succeeds has signed, and the instructions that it has given to the node.
use Prim.Native.String.{String}
use solana_hybrid_pq_account.Base.{ℕ, ◌+◌, ◌≡◌, sym, ap, ◌∙◌, Option, [], ◌∷◌, Bytes}
use solana_hybrid_pq_account.Core.Intent.{Action, AuthorizationIntent, transfer_sol}
use solana_hybrid_pq_account.Program.Runtime.{Instruction}
use solana_hybrid_pq_account.Client.Error.{Result, ok, ok-injective}
use solana_hybrid_pq_account.Client.FalconInterop.{WireSignature, sign_to_wire}
use solana_hybrid_pq_account.Client.Keys.{Ed25519Keypair, FalconKeypair}
use solana_hybrid_pq_account.Client.Machine.{FilePath, Machine, M, ◌>>=◌, pure, lift}
use solana_hybrid_pq_account.Client.Machine.Success.{>>=-eq-ok, lift->>=-eq-ok}
use solana_hybrid_pq_account.Client.Keys.Files.{load_ed25519, load_falcon}
use solana_hybrid_pq_account.Client.Onchain.{signing_intent, execute_instruction}
use solana_hybrid_pq_account.Client.Rpc.{BroadcastOpts}
use solana_hybrid_pq_account.Client.Submit.{
  Env, Object, LifecycleParams, parse_pubkey, resolve_nonce, sign_wire, submit, write_out, transfer,
}
use solana_hybrid_pq_account.Client.Submit.Lifecycle.{digest_of, signed_by, sign_lifecycle}
use solana_hybrid_pq_account.Client.Submit.Posted.{
  Posted, Posted-between, load_ed25519-same, load_falcon-same, submit-Posted, write_out-posted,
}

module _ (e : Env) where
  sign_wire-eq-ok :
      (digest secret : Bytes) (m : Machine) {wire : Bytes} {m' : Machine}
      → sign_wire e digest secret m ≡ (ok wire, m')
      → (signed : Bytes × WireSignature) × (sign_to_wire e.c m.draws digest secret ≡ ok signed)
        × (wire ≡ (signed.1).bytes)
        × (m' ≡ record m { draws = m.draws + 1 })
  unfolding sign_wire
  sign_wire-eq-ok digest secret m h =
      let (signed, e₁, s₁) =
        lift->>=-eq-ok (sign_to_wire e.c m.draws digest secret) (λ signed. pure (signed.1).bytes)
          (record m { draws = m.draws + 1 }) h in
      (signed, e₁, sym (ok-injective (ap (λ s. s.0) s₁)), sym (ap (λ s. s.1) s₁))

  -- The end of the commands that sign with both keys.
  abbrev finish :
      Ed25519Keypair
      → FalconKeypair
      → AuthorizationIntent
      → (Bytes → Result Instruction)
      → BroadcastOpts
      → Option FilePath
      → (Instruction → Option String → Object)
      → M (Unit {0})
  finish ed falcon intent build broadcast out object = do
    let digest = digest_of e intent
    wire ← sign_wire e digest falcon.secret
    let ed_ix = signed_by e ed digest
    ix ← lift (build wire)
    signature ← submit e broadcast (ed_ix ∷ ix ∷ [])
    write_out e out (object ix signature)

  -- The Falcon signature, the instruction, and what was posted.
  abbrev Finished :
      Ed25519Keypair
      → FalconKeypair
      → AuthorizationIntent
      → (Bytes → Result Instruction)
      → BroadcastOpts
      → Machine
      → Machine
      → Type 0
  Finished ed falcon intent build broadcast m m' =
      (signed : Bytes × WireSignature) × (ix : Instruction) × (sign_to_wire e.c m.draws
          (digest_of e intent) falcon.secret
        ≡ ok signed)
      × (build (signed.1).bytes ≡ ok ix)
      × Posted broadcast.broadcast (signed_by e ed (digest_of e intent) ∷ ix ∷ []) m m'

  finish-Finished :
      (ed : Ed25519Keypair) (falcon : FalconKeypair) (intent : AuthorizationIntent)
      (build : Bytes → Result Instruction) (broadcast : BroadcastOpts) (out : Option FilePath)
      (object : Instruction → Option String → Object) (m : Machine) {m' : Machine}
      → finish ed falcon intent build broadcast out object m ≡ (ok tt, m')
      → Finished ed falcon intent build broadcast m m'
  finish-Finished ed falcon intent build broadcast out object m h =
      let digest = digest_of e intent in
      let (wire, m₁, first, s₁) = >>=-eq-ok (sign_wire e digest falcon.secret) _ h in
      let (ix, m₂, second, s₂) = >>=-eq-ok (lift (build wire)) _ s₁ in
      let (sig, m₃, third, s₃) =
        >>=-eq-ok (submit e broadcast (signed_by e ed digest ∷ ix ∷ [])) _ s₂ in
      let (signed, falcon_signed, same, reached) = sign_wire-eq-ok digest falcon.secret m first in
      (
        signed,
        ix,
        falcon_signed,
        ap build (sym same) ∙ ap (λ s. s.0) second,
        Posted-between broadcast.broadcast _ m m₂ m₃ _
            (ap (λ (k : Machine). k.posted) (sym (ap (λ s. s.1) second) ∙ reached))
            (write_out-posted e out _ m₃ s₃) (submit-Posted e broadcast _ m₂ third),
      )

  -- The loads that stand before it.
  abbrev start :
      String
      → Bytes
      → Option ℕ
      → BroadcastOpts
      → (Ed25519Keypair → FalconKeypair → ℕ → M (Unit {0}))
      → M (Unit {0})
  start keys_dir hybrid_account nonce broadcast rest = do
    ed ← load_ed25519 e.os keys_dir
    falcon ← load_falcon e.os e.js e.c keys_dir
    n ← lift (resolve_nonce e hybrid_account nonce broadcast)
    rest ed falcon n

  start-Started :
      (keys_dir : String) (hybrid_account : Bytes) (nonce : Option ℕ) (broadcast : BroadcastOpts)
      (rest : Ed25519Keypair → FalconKeypair → ℕ → M (Unit {0})) (m : Machine) {m' : Machine}
      → start keys_dir hybrid_account nonce broadcast rest m ≡ (ok tt, m')
      → (ed : Ed25519Keypair) × (falcon : FalconKeypair) × (n : ℕ) × (load_ed25519 e.os keys_dir m
          ≡ (ok ed, m))
        × (load_falcon e.os e.js e.c keys_dir m ≡ (ok falcon, m))
        × (resolve_nonce e hybrid_account nonce broadcast ≡ ok n)
        × (rest ed falcon n m ≡ (ok tt, m'))
  start-Started keys_dir hybrid_account nonce broadcast rest m h =
      let (ed, m₁, first, s₁) = >>=-eq-ok (load_ed25519 e.os keys_dir) _ h in
      let (falcon, m₂, second, s₂) = >>=-eq-ok (load_falcon e.os e.js e.c keys_dir) _ s₁ in
      let (n, resolved, s₃) =
        lift->>=-eq-ok (resolve_nonce e hybrid_account nonce broadcast) (rest ed falcon) m₂ s₂ in
      let ed_same : m ≡ m₁ = load_ed25519-same e.os keys_dir m first in
      let falcon_same : m₁ ≡ m₂ = load_falcon-same e.os e.js e.c keys_dir m₁ second in
      (ed, falcon, n, cc, cc, resolved, cc)

  -- Both key pairs were loaded and signed one digest, and the instruction was built from the intent
  -- and the Falcon signature.
  pub record Signed (keys_dir program account : String) (nonce : Option ℕ) (expiry_slot : ℕ)
      (broadcast : BroadcastOpts) (action : Action)
      (build_ix : Bytes → Bytes → AuthorizationIntent → Bytes → Result Instruction) (m m' : Machine)
      : Type 0 where
    pub program_id : Bytes
    pub hybrid_account : Bytes
    pub n : ℕ
    pub program_parsed : parse_pubkey e "program_id" program ≡ ok program_id
    pub account_parsed : parse_pubkey e "account" account ≡ ok hybrid_account
    pub resolved : resolve_nonce e hybrid_account nonce broadcast ≡ ok n
    pub ed : Ed25519Keypair
    pub falcon : FalconKeypair
    pub ed_loaded : load_ed25519 e.os keys_dir m ≡ (ok ed, m)
    pub falcon_loaded : load_falcon e.os e.js e.c keys_dir m ≡ (ok falcon, m)
    pub finished :
        let intent = signing_intent program_id hybrid_account n expiry_slot action in
        Finished ed falcon intent (build_ix program_id hybrid_account intent) broadcast m m'

  -- A lifecycle command that succeeds has parsed its addresses, loaded both key pairs, and taken the
  -- nonce given to it or read by it; its Falcon signature and its instruction are for the intent of
  -- these, the signature at the first attempt. With a broadcast it has given the node exactly one
  -- transaction, of the precompile instruction of the Ed25519 signature over the same digest and
  -- directly after it the built instruction; without one it has given the node none.
  pub sign_lifecycle-Signed :
      (params : LifecycleParams) (action : Action)
      (build_ix : Bytes → Bytes → AuthorizationIntent → Bytes → Result Instruction) (m : Machine)
      {m' : Machine}
      → sign_lifecycle e params action build_ix m ≡ (ok tt, m')
      → Signed params.keys_dir params.program_id params.hybrid_account params.nonce
          params.expiry_slot params.broadcast action build_ix m m'
  unfolding sign_lifecycle
  sign_lifecycle-Signed params action build_ix m h =
      let (program_id, program_parsed, s₁) =
        lift->>=-eq-ok (parse_pubkey e "program_id" params.program_id) _ m h in
      let (hybrid_account, account_parsed, s₂) =
        lift->>=-eq-ok (parse_pubkey e "account" params.hybrid_account) _ m s₁ in
      let (ed, falcon, n, ed_loaded, falcon_loaded, resolved, s₃) =
        start-Started params.keys_dir hybrid_account params.nonce params.broadcast _ m s₂ in
      let intent = signing_intent program_id hybrid_account n params.expiry_slot action in
      record {
        program_id = program_id;
        hybrid_account = hybrid_account;
        n = n;
        program_parsed = program_parsed;
        account_parsed = account_parsed;
        resolved = resolved;
        ed = ed;
        falcon = falcon;
        ed_loaded = ed_loaded;
        falcon_loaded = falcon_loaded;
        finished =
            finish-Finished ed falcon intent (build_ix program_id hybrid_account intent)
              params.broadcast params.out _ m s₃;
      }

  -- A transfer that succeeds has parsed its addresses, loaded both key pairs, and taken the nonce given
  -- to it or read by it; its Falcon signature and its Execute instruction are for the intent of a
  -- transfer of the lamports to the recipient. With a broadcast it has given the node exactly one
  -- transaction, of the precompile instruction of the Ed25519 signature over the same digest and
  -- directly after it the Execute instruction; without one it has given the node none.
  pub transfer-Signed :
      (keys_dir program account to : String) (lamports : ℕ) (nonce : Option ℕ) (expiry_slot : ℕ)
      (out : Option FilePath) (broadcast : BroadcastOpts) (m : Machine) {m' : Machine}
      → transfer e keys_dir program account to lamports nonce expiry_slot out broadcast m
        ≡ (ok tt, m')
      → (recipient : Bytes) × (parse_pubkey e "to" to ≡ ok recipient)
        × Signed keys_dir program account nonce expiry_slot broadcast
            (transfer_sol recipient lamports)
            (execute_instruction e.rt)
            m
            m'
  unfolding transfer
  transfer-Signed keys_dir program account to lamports nonce expiry_slot out broadcast m h =
      let (program_id, program_parsed, s₁) =
        lift->>=-eq-ok (parse_pubkey e "program_id" program) _ m h in
      let (hybrid_account, account_parsed, s₂) =
        lift->>=-eq-ok (parse_pubkey e "account" account) _ m s₁ in
      let (recipient, to_parsed, s₃) = lift->>=-eq-ok (parse_pubkey e "to" to) _ m s₂ in
      let (ed, falcon, n, ed_loaded, falcon_loaded, resolved, s₄) =
        start-Started keys_dir hybrid_account nonce broadcast _ m s₃ in
      let intent =
        signing_intent program_id hybrid_account n expiry_slot (transfer_sol recipient lamports) in
      (
        recipient,
        to_parsed,
        record {
          program_id = program_id;
          hybrid_account = hybrid_account;
          n = n;
          program_parsed = program_parsed;
          account_parsed = account_parsed;
          resolved = resolved;
          ed = ed;
          falcon = falcon;
          ed_loaded = ed_loaded;
          falcon_loaded = falcon_loaded;
          finished =
              finish-Finished ed falcon intent
                (execute_instruction e.rt program_id hybrid_account intent) broadcast out _ m s₄;
        },
      )
