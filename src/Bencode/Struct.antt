-- ===== src/Bencode/Struct.antt =====
-- `read_struct` and the reading of fields in bt/src/bencode/decode.rs. `sk` is `skip_item`, and `dec`
-- decodes the value of the field.
use rust_torrent_client.Prelude.{
  ℕ, zero, suc, List, [], ◌∷◌, ◌++◌, Option, none, some, Bytes, ◌==◌, if◌then◌else◌, length,
  Ordering, Outcome, ok, err, out_of_fuel, ◌>>=◌,
}
use rust_torrent_client.Bencode.Decimal.{parse_usize}
use rust_torrent_client.Bencode.Encode.{compare_bytes}
use rust_torrent_client.Bencode.Decode.{
  DecodeError, missing_field, Read, peek_byte, expect, read_number, read_str,
}
use rust_torrent_client.Bencode.Skip.{Skip, skip_entries}

-- `read_integer` for an unsigned type of 64 bits
unfoldable pub read_unsigned : Bytes → Read ℕ
read_unsigned input = do
  rest ← expect 105 input
  (n, rest_1) ← read_number parse_usize rest
  rest_2 ← expect 101 rest_1
  ok (n, rest_2)

-- The arms on how the key compares to the name.
abbrev field_arm : {B : Type 0} → Ordering → B → B → B → B
field_arm Ordering.eq found earlier later = found
field_arm Ordering.lt found earlier later = earlier
field_arm Ordering.gt found earlier later = later

module _ {A : Type 0} where
  -- The loop of `read_list`, for items that `dec` decodes, and `read_list`.
  unfoldable pub read_vec_items : (Bytes → Read A) → ℕ → Bytes → Read (List A)
  read_vec_items dec zero input = out_of_fuel
  read_vec_items dec (suc fuel) input =
      let item = (do
        (a, rest) ← dec input
        (items, rest_1) ← read_vec_items dec fuel rest
        ok (a ∷ items, rest_1)) in
      do b ← peek_byte input; if b == 101 then ok ([], input) else item

  unfoldable pub read_vec : (Bytes → Read A) → ℕ → Bytes → Read (List A)
  read_vec dec fuel input = do
    rest ← expect 108 input
    (items, rest_1) ← read_vec_items dec fuel rest
    rest_2 ← expect 101 rest_1
    ok (items, rest_2)

  -- `read_struct`
  unfoldable pub read_struct : Skip → ℕ → (Bytes → Read A) → Bytes → Read A
  read_struct sk fuel f input = do
    rest ← expect 100 input
    (res, rest_1) ← f rest
    rest_2 ← skip_entries sk fuel rest_1
    rest_3 ← expect 101 rest_2
    ok (res, rest_3)

  -- The loop of `read_field`: the value, or that it is missing.
  unfoldable pub find_field :
      Skip → (Bytes → Read A) → Bytes → ℕ → Bytes → Outcome DecodeError (Option (A × Bytes))
  find_field sk dec name zero input = out_of_fuel
  find_field sk dec name (suc fuel) input =
      let entry = (do
        (key, rest) ← read_str input
        field_arm (compare_bytes key name) (do found ← dec rest; ok (some found))
            (do rest_1 ← sk rest; find_field sk dec name fuel rest_1) (ok none)) in
      do b ← peek_byte input; if b == 101 then ok none else entry

  abbrev or_missing : Bytes → Option (A × Bytes) → Read A
  or_missing name none = err (missing_field name)
  or_missing name (some found) = ok found

  unfoldable pub read_field : Skip → (Bytes → Read A) → Bytes → ℕ → Bytes → Read A
  read_field sk dec name fuel input = do
    found ← find_field sk dec name fuel input
    or_missing name found

  -- `read_option`, for a type whose values are decoded without the error of a missing field: the
  -- stream is then where it was.
  abbrev or_none : Bytes → Option (A × Bytes) → Read (Option A)
  or_none input none = ok (none, input)
  or_none input (some (a, rest)) = ok (some a, rest)

  unfoldable pub read_option : Skip → (Bytes → Read A) → Bytes → ℕ → Bytes → Read (Option A)
  read_option sk dec name fuel input = do
    found ← find_field sk dec name fuel input
    or_none input found

  -- The loop of `read_field_combine`: `res` was read, up to `pos`.
  unfoldable pub combine_fields :
      Skip → (Bytes → Read (List A)) → Bytes → ℕ → Bytes → List A → Bytes → Read (List A)
  combine_fields sk dec name zero pos res input = out_of_fuel
  combine_fields sk dec name (suc fuel) pos res input =
      let entry = (do
        (key, rest) ← read_str input
        field_arm (compare_bytes key name)
            (do (s, rest_1) ← dec rest; combine_fields sk dec name fuel rest_1 (res ++ s) rest_1)
            (do rest_1 ← sk rest; combine_fields sk dec name fuel pos res rest_1)
            (ok (res, pos))) in
      do b ← peek_byte input; if b == 101 then ok (res, pos) else entry

  unfoldable pub read_field_combine :
      Skip → (Bytes → Read (List A)) → Bytes → ℕ → Bytes → Read (Option (List A))
  read_field_combine sk dec name fuel input = do
    (res, pos) ← combine_fields sk dec name fuel input [] input
    if length res == 0 then err (missing_field name) else ok (some res, pos)
