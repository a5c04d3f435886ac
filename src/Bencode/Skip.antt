-- ===== src/Bencode/Skip.antt =====
-- The parts of `Decoder` of bt/src/bencode/decode.rs that pass over values.
pub mod Strings
pub mod Loops
pub mod Agree
use rust_torrent_client.Prelude.{
  ℕ, zero, suc, ◌+◌, ◌-◌, [], ◌∷◌, Bool, true, false, Bytes, ltb, ◌==◌, if◌then◌else◌, length, drop,
  Outcome, ok, err, out_of_fuel, ◌>>=◌, checked, u64_mod,
}
use rust_torrent_client.Bencode.Decimal.{is_digit, parse_usize}
use rust_torrent_client.Bencode.Decode.{
  DecodeError, eof, invalid_byte, peek_byte, expect, is_number, read_number,
}

-- `skip_while`
unfoldable pub skip_while : (ℕ → Bool) → Bytes → Outcome DecodeError Bytes
skip_while predicate [] = err eof
skip_while predicate (b ∷ rest) =
    let more = skip_while predicate rest in if predicate b then more else ok (b ∷ rest)

-- `skip` in a stream of `len` bytes, of which `rest` are left; the sum is one of `usize`.
unfoldable pub skip : ℕ → ℕ → Bytes → Outcome DecodeError Bytes
skip len n rest = do
  end ← checked u64_mod (len - length rest + n)
  if ltb len end then err eof else ok (drop n rest)

abbrev pub Skip : Type 0
Skip = Bytes → Outcome DecodeError Bytes

-- The loops of `skip_item` on a list and on a dictionary, with fuel for their rounds.
unfoldable pub skip_items : Skip → ℕ → Skip
skip_items skip_item zero input = out_of_fuel
skip_items skip_item (suc fuel) input =
    let item = (do rest ← skip_item input; skip_items skip_item fuel rest) in
    do b ← peek_byte input; if b == 101 then ok input else item

unfoldable pub skip_entries : Skip → ℕ → Skip
skip_entries skip_item zero input = out_of_fuel
skip_entries skip_item (suc fuel) input =
    let item = (do
      rest ← skip_item input
      rest_1 ← skip_item rest
      skip_entries skip_item fuel rest_1) in
    do b ← peek_byte input; if b == 101 then ok input else item

-- The arms of `skip_item`.
unfoldable pub skip_arm : Skip → ℕ → ℕ → Bytes → ℕ → Outcome DecodeError Bytes
skip_arm skip_item len fuel input b =
    if b == 100
    then (do rest ← skip_entries skip_item fuel (drop 1 input); expect 101 rest)
    else if b == 108
    then (do rest ← skip_items skip_item fuel (drop 1 input); expect 101 rest)
    else if b == 105
    then (do rest ← expect 105 input; rest_1 ← skip_while is_number rest; expect 101 rest_1)
    else if is_digit b
    then (do (n, rest) ← read_number parse_usize input; rest_1 ← expect 58 rest; skip len n rest_1)
    else err (invalid_byte b)

-- `skip_item`, with fuel for the depth and the length of the lists.
unfoldable pub skip_item : ℕ → ℕ → Bytes → Outcome DecodeError Bytes
skip_item len zero input = out_of_fuel
skip_item len (suc fuel) input = do
  b ← peek_byte input
  skip_arm (skip_item len fuel) len fuel input b
