-- ===== src/Client/Crates.antt =====
-- What the client uses of third-party crates, besides those that the program uses too: sha2, the
-- derivation of addresses and solana-falcon512 are fields of `Runtime`.
use Prim.Native.String.{String}
use solana_hybrid_pq_account.Base.{
  ℕ, ◌≡◌, refl, ◌⊎◌, inl, inr, Bool, Option, Bytes, length, ◌∷◌, ◌++◌,
}
use solana_hybrid_pq_account.Base.Words.{IsBytes, to_le_bytes}
use solana_hybrid_pq_account.Program.Runtime.{Runtime, Instruction}

-- The result of `hex::decode`: the bytes, or the text of its error.
pub data Decoded : Type 0 where
  decoded : Bytes → Decoded
  malformed : String → Decoded

pub record Crates : Type 0 where
  -- hex
  pub hex_encode : Bytes → String
  pub hex_decode : String → Decoded
  -- ed25519_dalek, by the seed: the verifying key and the signature of a message.
  pub ed25519_public : Bytes → Bytes
  -- seed, message
  pub ed25519_sign : Bytes → Bytes → Bytes
  -- `VerifyingKey::from_bytes`, then key, message, signature
  pub verifying_key : Bytes → Option Bytes
  pub ed25519_verify : Bytes → Bytes → Bytes → Bool
  -- pqcrypto_falcon. Signing is randomized: the first argument counts the calls so far.
  -- call, message, secret key
  pub detached_sign : ℕ → Bytes → Bytes → Bytes
  pub pq_public_key : Bytes → Option Bytes
  pub pq_secret_key : Bytes → Option Bytes
  pub pq_signature : Bytes → Option Bytes
  -- signature, message, key
  pub verify_detached : Bytes → Bytes → Bytes → Bool
  -- solana_ed25519_program: message, signature, key
  pub new_ed25519_instruction_with_signature : Bytes → Bytes → Bytes → Instruction

-- The layout that solana_ed25519_program documents: one signature, whose key, signature and message
-- stand behind the offsets in the instruction's own data.
pub record IsPrecompile (rt : Runtime) (c : Crates) : Type 0 where
  pub program_id :
      (message signature key : Bytes)
      → (c.new_ed25519_instruction_with_signature message signature key).program
        ≡ rt.ed25519_program_id
  pub layout :
      (message signature key : Bytes)
      → (c.new_ed25519_instruction_with_signature message signature key).payload
        ≡ 1 ∷ 0 ∷ to_le_bytes 2 48
          ++ to_le_bytes 2 65535
          ++ to_le_bytes 2 16
          ++ to_le_bytes 2 65535
          ++ to_le_bytes 2 112
          ++ to_le_bytes 2 (length message)
          ++ to_le_bytes 2 65535
          ++ key
          ++ signature
          ++ message

-- `hex` reads what it wrote, and what it reads are bytes.
pub record IsHex (c : Crates) : Type 0 where
  pub decode-encode : (b : Bytes) → IsBytes b → c.hex_decode (c.hex_encode b) ≡ decoded b
  pub decode-IsBytes : (s : String) (b : Bytes) → c.hex_decode s ≡ decoded b → IsBytes b

pub Decoded-cases :
    (d : Decoded) → ((b : Bytes) × (d ≡ decoded b)) ⊎ ((m : String) × (d ≡ malformed m))
Decoded-cases (decoded b) = inl (b, refl)
Decoded-cases (malformed m) = inr (m, refl)
