-- ===== src/Tests/Crates.antt =====
-- Concrete functions in the place of the client's third-party crates.
use Prim.Native.String.{String}
use Prim.Native.Char.{Char, code}
use solana_hybrid_pq_account.Base.{
  ℕ, ◌+◌, ◌-◌, ◌*◌, ◌/◌, ◌%◌, ◌<◌, ◌≡◌, refl, true, some, [], ◌∷◌, ◌++◌, Bytes, length, replicate,
  ltb, ◌==◌, ==_iff, ◌&&◌, Bool, Bool-cases, inl, inr, zero, suc, if◌then◌else◌, arith,
}
use solana_hybrid_pq_account.Base.Words.{IsBytes, to_le_bytes}
use solana_hybrid_pq_account.Core.ChainDomain.{chain_domain_localnet}
use solana_hybrid_pq_account.Program.Runtime.{Runtime}
use solana_hybrid_pq_account.Client.Crates.{
  Crates, Decoded, decoded, malformed, Decoded-cases, IsHex, IsPrecompile,
}
use solana_hybrid_pq_account.Tests.Fixture.{key, runtime}

abbrev digit : ℕ → Char
digit n =
    if n == 0
    then "0"
    else if n == 1
    then "1"
    else if n == 2
    then "2"
    else if n == 3
    then "3"
    else if n == 4
    then "4"
    else if n == 5
    then "5"
    else if n == 6
    then "6"
    else if n == 7
    then "7"
    else if n == 8
    then "8"
    else if n == 9
    then "9"
    else if n == 10
    then "a"
    else if n == 11
    then "b"
    else if n == 12
    then "c"
    else if n == 13
    then "d"
    else if n == 14
    then "e"
    else "f"

abbrev value : Char → ℕ
value c = (if ltb (code c) 58 then code c - 48 else code c - 87) % 16

abbrev pub hex_encode : Bytes → String
hex_encode [] = String.[]
hex_encode (b ∷ bs) = String.◌∷◌ (digit (b / 16)) (String.◌∷◌ (digit (b % 16)) (hex_encode bs))

abbrev push : ℕ → Decoded → Decoded
push b (decoded bs) = decoded (b ∷ bs)
push b (malformed e) = malformed e

abbrev pub hex_decode : String → Decoded
hex_decode String.[] = decoded []
hex_decode (String.◌∷◌ c String.[]) = malformed "Odd number of digits"
hex_decode (String.◌∷◌ c (String.◌∷◌ d s)) = push (16 * value c + value d) (hex_decode s)

reads_below : ℕ → Bool
reads_below zero = true
reads_below (suc n) = value (digit n) == n && reads_below n

reads_sound : (k n : ℕ) → reads_below k ≡ true → n < k → (value (digit n) == n) ≡ true
unfolding reads_below
reads_sound zero n h lt = absurd (omega arith)
reads_sound (suc k) n h lt = elim (Bool-cases (n == k)) [
  | inl same ↦ let e : n ≡ k = (==_iff n k).0 same in rw e (ground arith)
  | inr other ↦ reads_sound k n (ground arith) (ground arith)
]

value-digit : (n : ℕ) → n < 16 → value (digit n) ≡ n
unfolding reads_below
value-digit n h = (==_iff (value (digit n)) n).0 (reads_sound 16 n refl h)

decode-encode : (b : Bytes) → IsBytes b → hex_decode (hex_encode b) ≡ decoded b
decode-encode [] h = refl
decode-encode (b ∷ bs) h = ground (
  arith,
  decode-encode bs h.1,
  value-digit (b / 16) (omega arith),
  value-digit (b % 16) (omega arith),
)

decode-IsBytes : (s : String) (b : Bytes) → hex_decode s ≡ decoded b → IsBytes b
decode-IsBytes String.[] b h = let e : b ≡ [] = cc in rw e tt
decode-IsBytes (String.◌∷◌ c String.[]) b h = absurd (cc)
decode-IsBytes (String.◌∷◌ c (String.◌∷◌ d s)) b h = elim (Decoded-cases (hex_decode s)) [
  | inl (bs, e) ↦
      let same : b ≡ (16 * value c + value d) ∷ bs = ground (arith, e) in
      rw same (omega arith, decode-IsBytes s bs e)
  | inr (m, e) ↦ absurd (ground (arith, e))
]

-- The first Falcon signature is too long, and the others are not.
abbrev pub crates : Crates
crates = record {
  hex_encode = hex_encode;
  hex_decode = hex_decode;
  ed25519_public = λ seed. key 7;
  ed25519_sign = λ seed m. replicate 64 3;
  verifying_key = λ k. some k;
  ed25519_verify = λ k m s. true;
  detached_sign = λ n m k. if n == 0 then replicate 700 1 else replicate 650 1;
  pq_public_key = λ k. some k;
  pq_secret_key = λ k. some k;
  pq_signature = λ s. some s;
  verify_detached = λ s m k. true;
  new_ed25519_instruction_with_signature = λ m s k. record {
    program = key 10;
    metas = [];
    payload =
        1 ∷ 0 ∷ to_le_bytes 2 48
        ++ to_le_bytes 2 65535
        ++ to_le_bytes 2 16
        ++ to_le_bytes 2 65535
        ++ to_le_bytes 2 112
        ++ to_le_bytes 2 (length m)
        ++ to_le_bytes 2 65535
        ++ k
        ++ s
        ++ m;
  };
}

pub crates-IsHex : IsHex crates
crates-IsHex = record { decode-encode = decode-encode; decode-IsBytes = decode-IsBytes }

-- The runtime of a program that is built for the client's cluster.
abbrev pub local_runtime : Runtime
local_runtime = record (runtime 10) { chain_domain = chain_domain_localnet }

pub crates-IsPrecompile : IsPrecompile local_runtime crates
crates-IsPrecompile = record { program_id = λ m s k. refl; layout = λ m s k. refl }
