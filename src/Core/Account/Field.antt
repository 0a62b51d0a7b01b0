-- ===== src/Core/Account/Field.antt =====
-- The layout table of state.rs: eleven fields that tile the 1120 bytes, read and written as
-- ranges. What a setter leaves alone follows from the order of the fields.
use native.Mathlib.Decide.{dec_lt}
use solana_hybrid_pq_account.Base.{ℕ, ◌+◌, ◌≤◌, ◌<◌, ◌≡◌, ◌≢◌, arith, Bytes, length}
use solana_hybrid_pq_account.Base.Buffer.{
  slice, write, slice-write_self, slice-write_before, slice-write_after,
}

pub data Field : Type 0 where
  version bump policy flags account_index owner_ed25519 : Field
  falcon_public_key_hash nonce falcon_required_above reserved : Field
  prepared_falcon_public_key : Field

abbrev pub rank : Field → ℕ
rank version = 0
rank bump = 1
rank policy = 2
rank flags = 3
rank account_index = 4
rank owner_ed25519 = 5
rank falcon_public_key_hash = 6
rank nonce = 7
rank falcon_required_above = 8
rank reserved = 9
rank prepared_falcon_public_key = 10

abbrev pub start : Field → ℕ
start version = 0
start bump = 1
start policy = 2
start flags = 3
start account_index = 4
start owner_ed25519 = 8
start falcon_public_key_hash = 40
start nonce = 72
start falcon_required_above = 80
start reserved = 88
start prepared_falcon_public_key = 96

abbrev pub size : Field → ℕ
size version = 1
size bump = 1
size policy = 1
size flags = 1
size account_index = 4
size owner_ed25519 = 32
size falcon_public_key_hash = 32
size nonce = 8
size falcon_required_above = 8
size reserved = 8
size prepared_falcon_public_key = 1024

unfoldable pub field : Field → Bytes → Bytes
field f a = slice (start f) (size f) a

unfoldable pub put : Field → Bytes → Bytes → Bytes
put f v a = write (start f) v a

fields_apart : (f g : Field) → rank f < rank g → start f + size f ≤ start g
fields_apart version g h = grind arith
fields_apart _ g h = grind arith

pub field_in_bounds : (f : Field) → start f + size f ≤ 1120
field_in_bounds version = omega arith
field_in_bounds _ = omega arith

pub field-put_self :
    (f : Field) (v a : Bytes) → length v ≡ size f → length a ≡ 1120 → field f (put f v a) ≡ v
unfolding field put
field-put_self f v a hv ha =
    slice-write_self (start f) (size f) v a (omega arith) (omega (arith, field_in_bounds f))

pub field-put_ne :
    (f g : Field) (v a : Bytes)
    → length v ≡ size g
    → rank f ≢ rank g
    → field f (put g v a) ≡ field f a
unfolding field put
field-put_ne f g v a hv ne = elim (dec_lt (rank f) (rank g)) [
  | yes before ↦
      slice-write_before (start f) (size f) (start g) v a (omega (arith, fields_apart f g))
  | no behind ↦ slice-write_after (start f) (size f) (start g) v a (omega (arith, fields_apart g f))
]
