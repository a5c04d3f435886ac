-- ===== src/Bencode/Decode.antt =====
-- `Decoder` of bt/src/bencode/decode.rs and `Value::decode` of bt/src/bencode/value.rs. The decoder
-- is the bytes that it has not read.
use rust_torrent_client.Prelude.{
  ℕ, zero, suc, [], ◌∷◌, Option, none, some, Bool, true, false, Bytes, ltb, ◌==◌, if◌then◌else◌,
  length, take, drop, Outcome, ok, err, out_of_fuel, ◌>>=◌,
}
use rust_torrent_client.Peer.Handshake.{bytes_eq}
use rust_torrent_client.Bencode.Decimal.{ℤ, is_digit, parse_usize, parse_i64}
use rust_torrent_client.Bencode.Utf8.{is_utf8}
use rust_torrent_client.Bencode.Encode.{
  Value, integer, bytes, string, list, dict, Values, empty_list, value, Entries, empty_map, insert,
}

-- `DecodeError`.
pub data DecodeError : Type 0 where
  eof extraneous_data invalid_dict invalid_number invalid_utf8 : DecodeError
  unexpected_byte : ℕ → ℕ → DecodeError
  invalid_byte : ℕ → DecodeError
  missing_field : Bytes → DecodeError

abbrev pub Read : Type 0 → Type 0
Read A = Outcome DecodeError (A × Bytes)

-- `finish`
unfoldable pub finish : Bytes → Outcome DecodeError (Unit {0})
finish [] = ok tt
finish (b ∷ data_left) = err extraneous_data

unfoldable pub peek_byte : Bytes → Outcome DecodeError ℕ
peek_byte [] = err eof
peek_byte (b ∷ rest) = ok b

unfoldable pub expect : ℕ → Bytes → Outcome DecodeError Bytes
expect byte [] = err eof
expect byte (b ∷ rest) = if b == byte then ok rest else err (unexpected_byte byte b)

-- `is_number`
abbrev pub is_number : ℕ → Bool
is_number b = if b == 45 then true else is_digit b

-- `read_while(is_number)`, which fails at the end of the data.
unfoldable pub read_while_number : Bytes → Read Bytes
read_while_number [] = err eof
read_while_number (b ∷ rest) =
    let more = (do (buf, after) ← read_while_number rest; ok (b ∷ buf, after)) in
    if is_number b then more else ok ([], b ∷ rest)

abbrev leading_zero : Bytes → Bool
leading_zero (b ∷ c ∷ buf) = b == 48
leading_zero _ = false

-- The test of `read_number` on what it read.
unfoldable pub malformed : Bytes → Bool
malformed buf =
    if length buf == 0 then true else if leading_zero buf then true else bytes_eq buf (45 ∷ 48 ∷ [])

abbrev pub or_invalid {ℓ} : {A : Type ℓ} → Option A → Outcome DecodeError A
or_invalid none = err invalid_number
or_invalid (some a) = ok a

-- `read_number` for the integer type that `parse` is for.
unfoldable pub read_number : {A : Type 0} → (Bytes → Option A) → Bytes → Read A
read_number parse input = do
  (buf, rest) ← read_while_number input
  n ← if malformed buf then err invalid_number else or_invalid (parse buf)
  ok (n, rest)

unfoldable pub read_byte_string : Bytes → Read Bytes
read_byte_string input = do
  (n, rest) ← read_number parse_usize input
  rest_1 ← expect 58 rest
  if ltb (length rest_1) n then err eof else ok (take n rest_1, drop n rest_1)

unfoldable pub read_str : Bytes → Read Bytes
read_str input = do
  (s, rest) ← read_byte_string input
  if is_utf8 s then ok (s, rest) else err invalid_utf8

unfoldable pub read_integer : Bytes → Read ℤ
read_integer input = do
  rest ← expect 105 input
  (n, rest_1) ← read_number parse_i64 rest
  rest_2 ← expect 101 rest_1
  ok (n, rest_2)

-- The loop of `read_list`, with fuel for its rounds; `decode` reads an item.
unfoldable pub read_items : (Bytes → Read Value) → ℕ → Bytes → Read Values
read_items decode zero input = out_of_fuel
read_items decode (suc fuel) input =
    let item = (do
      (v, rest) ← decode input
      (values, rest_1) ← read_items decode fuel rest
      ok (value v values, rest_1)) in
    do b ← peek_byte input; if b == 101 then ok (empty_list, input) else item

-- The loop of `read_dict` from the map that it has.
unfoldable pub read_entries : (Bytes → Read Value) → ℕ → Entries → Bytes → Read Entries
read_entries decode zero map input = out_of_fuel
read_entries decode (suc fuel) map input =
    let item = (do
      (key, rest) ← read_str input
      (v, rest_1) ← decode rest
      read_entries decode fuel (insert key v map) rest_1) in
    do b ← peek_byte input; if b == 101 then ok (map, input) else item

unfoldable pub read_list : (Bytes → Read Value) → ℕ → Bytes → Read Values
read_list decode fuel input = do
  rest ← expect 108 input
  (values, rest_1) ← read_items decode fuel rest
  rest_2 ← expect 101 rest_1
  ok (values, rest_2)

unfoldable pub read_dict : (Bytes → Read Value) → ℕ → Bytes → Read Entries
read_dict decode fuel input = do
  rest ← expect 100 input
  (map, rest_1) ← read_entries decode fuel empty_map rest
  rest_2 ← expect 101 rest_1
  ok (map, rest_2)

abbrev pub string_or_bytes : Bytes → Value
string_or_bytes s = if is_utf8 s then string s else bytes s

-- The arms of `Value::decode`.
unfoldable pub decode_arm : (Bytes → Read Value) → ℕ → Bytes → ℕ → Read Value
decode_arm decode fuel input b =
    if b == 100
    then (do (map, rest) ← read_dict decode fuel input; ok (dict map, rest))
    else if b == 108
    then (do (values, rest) ← read_list decode fuel input; ok (list values, rest))
    else if b == 105
    then (do (n, rest) ← read_integer input; ok (integer n, rest))
    else if is_digit b
    then (do (s, rest) ← read_byte_string input; ok (string_or_bytes s, rest))
    else err (invalid_byte b)

-- `Value::decode`, with fuel for the depth and the length of the lists.
unfoldable pub decode : ℕ → Bytes → Read Value
decode zero input = out_of_fuel
decode (suc fuel) input = do b ← peek_byte input; decode_arm (decode fuel) fuel input b
