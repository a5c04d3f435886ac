-- ===== src/Bencode/Hash.antt =====
-- `Sha1::sha1_list` and `to_hex` of bt/src/bencode/hash.rs, and `from_value` of bt/src/bencode/value.rs
-- for a list of hashes.
pub mod Lists
use rust_torrent_client.Prelude.{
  ℕ, zero, suc, ◌+◌, ◌-◌, ◌*◌, ◌/◌, ◌%◌, List, [], ◌∷◌, ◌++◌, Bytes, leb, ltb, if◌then◌else◌,
  length, take, drop, Outcome, ok, err, out_of_fuel, ◌>>=◌,
}
use rust_torrent_client.Bencode.Encode.{Value, integer, bytes, string, list, dict}
use rust_torrent_client.Bencode.Decode.{DecodeError, extraneous_data}

-- The `while` loop of `sha1_list`, with fuel for its rounds: the hash that ends at `i` is next.
unfoldable pub sha1_from : ℕ → ℕ → Bytes → Outcome DecodeError (List Bytes)
sha1_from zero i input = out_of_fuel
sha1_from (suc fuel) i input =
    let more = (do
      rest ← sha1_from fuel (i + 20) input
      ok (take 20 (drop (i - 20) input) ∷ rest)) in
    if leb i (length input) then more else ok []

unfoldable pub sha1_list : Bytes → Outcome DecodeError (List Bytes)
sha1_list input = sha1_from (suc (length input)) 20 input

-- `from_value` for `Vec<Sha1>`
unfoldable pub hashes_from_value : Value → Outcome DecodeError (List Bytes)
hashes_from_value (bytes b) = sha1_list b
hashes_from_value _ = err extraneous_data

-- An entry of `HEX_CHARS`.
abbrev pub hex_char : ℕ → ℕ
hex_char n = if ltb n 10 then 48 + n else 87 + n

-- `to_hex`
unfoldable pub to_hex : Bytes → Bytes
to_hex [] = []
to_hex (b ∷ input) = hex_char (b / 16) ∷ hex_char (b % 16) ∷ to_hex input
