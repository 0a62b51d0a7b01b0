-- ===== src/Client/Submit/Posted.antt =====
-- What a command that succeeds has given to the node.
use Prim.Native.String.{String}
use solana_hybrid_pq_account.Base.{
  ℕ, ◌≡◌, sym, ap, ◌∙◌, Bool, true, false, Option, none, some, List, ◌∷◌, Bytes, if◌then◌else◌,
  arith,
}
use solana_hybrid_pq_account.Program.Runtime.{Instruction}
use solana_hybrid_pq_account.Client.Error.{ok, ok_or, falcon_key}
use solana_hybrid_pq_account.Client.Crates.{Crates}
use solana_hybrid_pq_account.Client.Keys.{Ed25519Keypair, FalconKeypair}
use solana_hybrid_pq_account.Client.Machine.{FilePath, Machine, Transaction, Os, pure, lift}
use solana_hybrid_pq_account.Client.Machine.Success.{>>=-eq-ok}
use solana_hybrid_pq_account.Client.Keys.Files.{
  Json, read, read_exact_len, load_ed25519, load_falcon, key_path, ed25519_sk_file, falcon_sk_file,
  falcon_pk_file,
}
use solana_hybrid_pq_account.Client.Keys.Files.Modes.{write_with_mode_lem}
use solana_hybrid_pq_account.Client.Rpc.{
  BroadcastOpts, require_for_broadcast, Payer, Sdk, Node, sign_legacy_transaction,
}
use solana_hybrid_pq_account.Client.Rpc.Post.{
  load_payer, keypair_bytes, send_instructions, send_and_confirm,
}
use solana_hybrid_pq_account.Client.Submit.{Env, Object, send, submit, write_out}

read-same :
    (os : Os) (p : FilePath) (m : Machine) {b : Bytes} {m' : Machine}
    → read os p m ≡ (ok b, m')
    → m ≡ m'
unfolding read
read-same os p m h = ground arith

read_exact_len-same :
    (os : Os) (p : FilePath) (n : ℕ) (m : Machine) {b : Bytes} {m' : Machine}
    → read_exact_len os p n m ≡ (ok b, m')
    → m ≡ m'
unfolding read_exact_len
read_exact_len-same os p n m h =
    let (b, m₁, first, rest) = >>=-eq-ok (read os p) _ h in
    read-same os p m first ∙ ap (λ s. s.1) rest

pub load_ed25519-same :
    (os : Os) (dir : String) (m : Machine) {ed : Ed25519Keypair} {m' : Machine}
    → load_ed25519 os dir m ≡ (ok ed, m')
    → m ≡ m'
unfolding load_ed25519
load_ed25519-same os dir m h =
    let (b, m₁, first, rest) =
      >>=-eq-ok (read_exact_len os (key_path dir ed25519_sk_file) 32) _ h in
    read_exact_len-same os _ 32 m first ∙ ap (λ s. s.1) rest

pub load_falcon-same :
    (os : Os) (js : Json) (c : Crates) (dir : String) (m : Machine) {falcon : FalconKeypair}
    {m' : Machine}
    → load_falcon os js c dir m ≡ (ok falcon, m')
    → m ≡ m'
unfolding load_falcon
load_falcon-same os js c dir m h =
    let (sk, m₁, first, s₁) =
      >>=-eq-ok (read_exact_len os (key_path dir falcon_sk_file) 1281) _ h in
    let (pk, m₂, second, s₂) =
      >>=-eq-ok (read_exact_len os (key_path dir falcon_pk_file) 897) _ s₁ in
    let (secret, m₃, third, s₃) =
      >>=-eq-ok
        (lift (ok_or (c.pq_secret_key sk) (falcon_key "PQClean rejected the secret key encoding")))
        _ s₂ in
    let (public, m₄, fourth, s₄) =
      >>=-eq-ok
        (lift (ok_or (c.pq_public_key pk) (falcon_key "PQClean rejected the public key encoding")))
        _ s₃ in
    read_exact_len-same os _ 1281 m first
    ∙ read_exact_len-same os _ 897 m₁ second
    ∙ ap (λ s. s.1) third
    ∙ ap (λ s. s.1) fourth
    ∙ ap (λ s. s.1) s₄

load_payer-same :
    (os : Os) (sdk : Sdk) (p : FilePath) (m : Machine) {payer : Payer} {m' : Machine}
    → load_payer os sdk p m ≡ (ok payer, m')
    → m ≡ m'
unfolding load_payer
load_payer-same os sdk p m h =
    let (b, m₁, first, s₁) = >>=-eq-ok (read os p) _ h in
    let (arr, m₂, second, s₂) = >>=-eq-ok (lift (keypair_bytes os sdk p b)) _ s₁ in
    read-same os p m first ∙ ap (λ s. s.1) second ∙ ap (λ s. s.1) s₂

sign_legacy_transaction-eq-ok :
    (sdk : Sdk) (payer : Payer) (instructions : List Instruction) (blockhash : Bytes)
    {tx : Transaction}
    → sign_legacy_transaction sdk payer instructions blockhash ≡ ok tx
    → tx.instructions ≡ instructions
unfolding sign_legacy_transaction
sign_legacy_transaction-eq-ok sdk payer instructions blockhash h = ground arith

-- One transaction with the instructions was given to the node, or none.
abbrev pub Posted : Bool → List Instruction → Machine → Machine → Type 0
Posted false instructions m m' = m'.posted ≡ m.posted
Posted true instructions m m' =
    (tx : Transaction) × (tx.instructions ≡ instructions) × (m'.posted ≡ tx ∷ m.posted)

pub Posted-between :
    (sends : Bool) (instructions : List Instruction) (m m₁ m₂ m₃ : Machine)
    → m₁.posted ≡ m.posted
    → m₃.posted ≡ m₂.posted
    → Posted sends instructions m₁ m₂
    → Posted sends instructions m m₃
Posted-between false instructions m m₁ m₂ m₃ before after p = after ∙ p ∙ before
Posted-between true instructions m m₁ m₂ m₃ before after (tx, holds, p) =
    (tx, holds, after ∙ p ∙ ap (λ posted. tx ∷ posted) before)

send_and_confirm-posted :
    (sdk : Sdk) (node : Node) (url : String) (tx : Transaction) (m : Machine) {sig : String}
    {m' : Machine}
    → send_and_confirm sdk node url tx m ≡ (ok sig, m')
    → m'.posted ≡ tx ∷ m.posted
unfolding send_and_confirm
send_and_confirm-posted sdk node url tx m h = ground arith

send_instructions-Posted :
    (sdk : Sdk) (node : Node) (url : String) (payer : Payer) (instructions : List Instruction)
    (m : Machine) {sig : String} {m' : Machine}
    → send_instructions sdk node url payer instructions m ≡ (ok sig, m')
    → Posted true instructions m m'
unfolding send_instructions
send_instructions-Posted sdk node url payer instructions m h =
    let (blockhash, m₁, first, s₁) = >>=-eq-ok (lift (node.get_latest_blockhash url)) _ h in
    let (tx, m₂, second, s₂) =
      >>=-eq-ok (lift (sign_legacy_transaction sdk payer instructions blockhash)) _ s₁ in
    let signed = ap (λ s. s.0) second in
    (
      tx,
      sign_legacy_transaction-eq-ok sdk payer instructions blockhash signed,
      send_and_confirm-posted sdk node url tx m₂ s₂
          ∙ ap (λ (k : Machine). tx ∷ k.posted)
              (sym (ap (λ s. s.1) second) ∙ sym (ap (λ s. s.1) first)),
    )

module _ (e : Env) where
  send-Posted :
      (broadcast : BroadcastOpts) (instructions : List Instruction) (m : Machine)
      {sig : Option String} {m' : Machine}
      → send e broadcast instructions m ≡ (ok sig, m')
      → Posted true instructions m m'
  unfolding send
  send-Posted broadcast instructions m h =
      let (target, m₁, first, s₁) = >>=-eq-ok (lift (require_for_broadcast broadcast)) _ h in
      let (payer, m₂, second, s₂) = >>=-eq-ok (load_payer e.os e.sdk target.1) _ s₁ in
      let (sig, m₃, third, s₃) =
        >>=-eq-ok (send_instructions e.sdk e.node target.0 payer instructions) _ s₂ in
      let (tx, holds, posted) =
        send_instructions-Posted e.sdk e.node target.0 payer instructions m₂ third in
      (
        tx,
        holds,
        sym (ap (λ s. (s.1).posted) s₃)
            ∙ posted
            ∙ ap (λ (k : Machine). tx ∷ k.posted)
                (sym (load_payer-same e.os e.sdk target.1 m₁ second) ∙ sym (ap (λ s. s.1) first)),
      )

  submitted :
      (sending : Bool) (broadcast : BroadcastOpts) (instructions : List Instruction) (m : Machine)
      {sig : Option String} {m' : Machine}
      → (if sending then send e broadcast instructions else pure none) m ≡ (ok sig, m')
      → Posted sending instructions m m'
  submitted false broadcast instructions m h = sym (ap (λ s. (s.1).posted) h)
  submitted true broadcast instructions m h = send-Posted broadcast instructions m h

  pub submit-Posted :
      (broadcast : BroadcastOpts) (instructions : List Instruction) (m : Machine)
      {sig : Option String} {m' : Machine}
      → submit e broadcast instructions m ≡ (ok sig, m')
      → Posted broadcast.broadcast instructions m m'
  unfolding submit
  submit-Posted broadcast instructions m h =
      submitted broadcast.broadcast broadcast instructions m h

  pub write_out-posted :
      (out : Option FilePath) (object : Object) (m : Machine) {m' : Machine}
      → write_out e out object m ≡ (ok tt, m')
      → m'.posted ≡ m.posted
  unfolding write_out
  write_out-posted none object m h = sym (ap (λ s. (s.1).posted) h)
  write_out-posted (some path) object m h =
      ap (λ (k : Machine). k.posted) (write_with_mode_lem e.os path _ _ m h)
