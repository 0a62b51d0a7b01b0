-- ===== src/Tests/Fixture.antt =====
-- A small ledger and a runtime whose third-party parts are concrete functions.
use solana_hybrid_pq_account.Base.{
  ℕ, ◌+◌, Bool, true, Option, some, List, [], ◌∷◌, ◌++◌, Bytes, replicate, ◌==ᵇ◌, ltb, ◌&&◌, ◌≡◌,
  refl, arith, if◌then◌else◌,
}
use solana_hybrid_pq_account.Base.Words.{IsBytes, to_le_bytes}
use solana_hybrid_pq_account.Core.Error.{Result, ok, err, is_ok}
use solana_hybrid_pq_account.Core.Intent.{Action}
use solana_hybrid_pq_account.Core.Wire.{ExecuteIntentWire, encode}
use solana_hybrid_pq_account.Program.Runtime.{
  World, AccountInfo, Cpi, system_transfer, system_allocate, system_assign, token_instruction,
  Runtime, set_content, set_lamports,
}

abbrev pub key : ℕ → Bytes
key n = replicate 32 n

abbrev pub program_id : Bytes
program_id = key 9

abbrev pub info : ℕ → AccountInfo
info n = record { key = key n; is_signer = true; is_writable = true }

-- The data of a hybrid account, by its policy, flags and nonce.
abbrev pub hybrid_bytes : ℕ → ℕ → ℕ → Bytes
hybrid_bytes policy flags nonce =
    1 ∷ 255 ∷ policy ∷ flags ∷ to_le_bytes 4 0
    ++ key 7
    ++ key 8
    ++ to_le_bytes 8 nonce
    ++ replicate 16 0
    ++ replicate 1024 6

-- The data of a recovery config, by its delay, pending key and slot.
abbrev pub config_bytes : ℕ → Bytes → ℕ → Bytes
config_bytes delay pending slot =
    1 ∷ 254 ∷ 0 ∷ 0 ∷ key 7
    ++ to_le_bytes 8 delay
    ++ pending
    ++ to_le_bytes 8 slot
    ++ replicate 44 0

-- The hybrid account is at 1, a recipient at 2 and the recovery config at 4.
abbrev pub ledger : Bytes → Bytes → World
ledger hybrid config k =
    if k ==ᵇ key 1
    then record { lamports = 5000; owner = program_id; content = hybrid }
    else if k ==ᵇ key 4
    then record { lamports = 1000; owner = program_id; content = config }
    else record { lamports = 30; owner = key 0; content = [] }

-- One signature, by `key 7` over the digest of the runtime below.
abbrev pub ed25519_payload : Bytes
ed25519_payload =
    1 ∷ 0 ∷ to_le_bytes 2 48
    ++ to_le_bytes 2 65535
    ++ to_le_bytes 2 16
    ++ to_le_bytes 2 65535
    ++ to_le_bytes 2 112
    ++ to_le_bytes 2 32
    ++ to_le_bytes 2 65535
    ++ key 7
    ++ replicate 64 3
    ++ key 5

abbrev pub invoke : Cpi → List (List Bytes) → World → Option World
invoke (system_transfer from to amount) seeds w =
    some (set_lamports to ((w to).lamports + amount) w)
invoke (system_allocate account space) seeds w = some (set_content account (replicate space 0) w)
invoke (system_assign account owner) seeds w = some w
invoke (token_instruction ix) seeds w = some w

-- The runtime at a slot.
abbrev pub runtime : ℕ → Runtime
runtime slot = record {
  clock_slot = some slot;
  minimum_balance = some (λ n. n);
  previous_instruction = some (record { program = key 10; metas = []; payload = ed25519_payload });
  sha256 = λ m. key 5;
  find_program_address = λ seeds p. some (key 4, 254);
  create_program_address = λ seeds p. some (key 1);
  prepared_from_slice = λ b. some b;
  signature_from_slice = λ b. some b;
  pubkey_from_slice = λ b. some b;
  verify_with_prepared = λ s m k. true;
  verify = λ s m k. true;
  try_prepare_pubkey = λ k. some (replicate 1024 6);
  invoke_signed = invoke;
  instructions_sysvar_id = key 3;
  ed25519_program_id = key 10;
  system_program_id = key 11;
  token_program_id = key 12;
  token_2022_program_id = key 13;
  chain_domain = key 14;
}

abbrev pub wire : Action → ExecuteIntentWire
wire action = record { expiry_slot = 100; action = action }

abbrev pub payload : Action → Bytes
payload action = encode (wire action) ++ replicate 666 0

abbrev pub run {ℓ} : {A : Type ℓ} → Result A → A → A
run (ok a) d = a
run (err e) d = d

pub run-ok {ℓ} : {A : Type ℓ} (r : Result A) (d : A) → is_ok r ≡ true → r ≡ ok (run r d)
run-ok (ok a) d h = refl
run-ok (err e) d h = cc

abbrev pub all_u8 : Bytes → Bool
all_u8 [] = true
all_u8 (b ∷ bs) = ltb b 256 && all_u8 bs

pub all_u8-IsBytes : (bs : Bytes) → all_u8 bs ≡ true → IsBytes bs
all_u8-IsBytes [] h = tt
all_u8-IsBytes (b ∷ bs) h = (ground arith, all_u8-IsBytes bs (ground arith))

-- The cut payload of a Falcon rotation: a signature, the new key and its own signature.
abbrev pub falcon_payload : Action → Bytes
falcon_payload action =
    encode (wire action) ++ replicate 666 0 ++ replicate 897 2 ++ replicate 666 0

abbrev pub initialize_payload : Bytes
initialize_payload = to_le_bytes 4 0 ++ key 7 ++ (2 ∷ replicate 897 2)

-- A token account of the hybrid account at 1, with a balance of 500 of the mint at 23.
abbrev pub token_bytes : ℕ → Bytes
token_bytes owner = key 23 ++ key owner ++ to_le_bytes 8 500 ++ replicate 93 0

abbrev pub token_ledger : World
token_ledger k =
    if k ==ᵇ key 1
    then record { lamports = 5000; owner = program_id; content = hybrid_bytes 2 0 41 }
    else if k ==ᵇ key 21
    then record { lamports = 30; owner = key 12; content = token_bytes 1 }
    else if k ==ᵇ key 22
    then record { lamports = 30; owner = key 12; content = token_bytes 2 }
    else record { lamports = 30; owner = key 12; content = replicate 82 0 }
