-- ===== src/Bencode/Skip/Agree.antt =====
-- `skip_item` of bt/src/bencode/decode.rs passes over what decoding a value takes.
use rust_torrent_client.Prelude.{
  ℕ, zero, suc, ◌+◌, ◌≤◌, ◌<◌, ◌≡◌, Bytes, ◌==◌, length, drop, arith, ok, ◌>>=◌, u64_mod, Ensures,
  holds, failed, Ensures-bind, Ensures-if,
}
use rust_torrent_client.Bencode.Decimal.{is_digit}
use rust_torrent_client.Bencode.Encode.{empty_map}
use rust_torrent_client.Bencode.Decode.{
  peek_byte, expect, read_str, read_items, read_entries, read_list, read_dict, decode_arm, decode,
}
use rust_torrent_client.Bencode.Skip.{skip_items, skip_entries, skip_arm, skip_item}
use rust_torrent_client.Bencode.Skip.Strings.{
  Skips, expect-run, string_passed, key_passed, integer_passed,
}
use rust_torrent_client.Bencode.Skip.Loops.{peek-run, items_skip, entries_skip}

key_passed_fuel :
    (len fuel : ℕ) (input : Bytes)
    → length input < fuel
    → length input ≤ len
    → len < u64_mod
    → Ensures (Skips input (skip_item len fuel input)) (read_str input)
key_passed_fuel len zero input enough part fits = absurd (omega arith)
key_passed_fuel len (suc fuel) input enough part fits = key_passed len fuel input part fits

skip_item-arm :
    (len fuel b : ℕ) (input rest : Bytes)
    → peek_byte input ≡ ok b
    → skip_arm (skip_item len fuel) len fuel input b ≡ ok rest
    → skip_item len (suc fuel) input ≡ ok rest
unfolding skip_item
skip_item-arm len fuel b input rest at e = rw at e

dict_passed :
    (len fuel : ℕ) (input : Bytes)
    → ((rest : Bytes)
        → length rest + 1 ≤ length input
        → Ensures
            (λ (map, after).
              (skip_entries (skip_item len fuel) fuel rest ≡ ok after)
              × (length after ≤ length rest))
            (read_entries (decode fuel) fuel empty_map rest))
    → Ensures
        (Skips input
          (do rest ← skip_entries (skip_item len fuel) fuel (drop 1 input); expect 101 rest))
        (read_dict (decode fuel) fuel input)
unfolding read_dict
dict_passed len fuel input entries = Ensures-bind (expect-run 100 input) λ rest (less, is, _).
    Ensures-bind (entries rest less) λ (map, rest_1) (passed, less_1).
      Ensures-bind (expect-run 101 rest_1) λ rest_2 (less_2, _, last).
        holds (rw (← is) (rw (passed, last)), omega (arith, less, less_1, less_2))

list_passed :
    (len fuel : ℕ) (input : Bytes)
    → ((rest : Bytes)
        → length rest + 1 ≤ length input
        → Ensures
            (λ (values, after).
              (skip_items (skip_item len fuel) fuel rest ≡ ok after) × (length after ≤ length rest))
            (read_items (decode fuel) fuel rest))
    → Ensures
        (Skips input
          (do rest ← skip_items (skip_item len fuel) fuel (drop 1 input); expect 101 rest))
        (read_list (decode fuel) fuel input)
unfolding read_list
list_passed len fuel input items = Ensures-bind (expect-run 108 input) λ rest (less, is, _).
    Ensures-bind (items rest less) λ (values, rest_1) (passed, less_1).
      Ensures-bind (expect-run 101 rest_1) λ rest_2 (less_2, _, last).
        holds (rw (← is) (rw (passed, last)), omega (arith, less, less_1, less_2))

-- Where a value is decoded, `skip_item` passes over the same bytes: in a stream of `len` bytes, fewer
-- than 2 ^ 64, with at most that many left and fuel above their number, decoding ends, and if it
-- returns a value, then skipping leaves the same bytes.
pub skip_item-decode :
    (len fuel : ℕ) (input : Bytes)
    → length input < fuel
    → length input ≤ len
    → len < u64_mod
    → Ensures
        (λ (v, rest). (skip_item len fuel input ≡ ok rest) × (length rest + 1 ≤ length input))
        (decode fuel input)
unfolding decode decode_arm skip_arm
skip_item-decode len zero input enough part fits = absurd (omega arith)
skip_item-decode len (suc fuel) input enough part fits = Ensures-bind (peek-run input) λ b at.
    let values = λ (rest : Bytes) (small : length rest < length input).
      skip_item-decode len fuel rest (omega (arith, small, enough)) (omega (arith, small, part))
        fits in
    let strings = λ (rest : Bytes) (small : length rest < length input).
      key_passed_fuel len fuel rest (omega (arith, small, enough)) (omega (arith, small, part))
        fits in
    Ensures-if (b == 100)
      (λ d.
        Ensures-bind
          (dict_passed len fuel input λ rest small.
            entries_skip (decode fuel) (skip_item len fuel) (length input) values strings fuel
              empty_map rest (omega (arith, small)) (omega (arith, small, enough)))
          λ (map, rest) (passed, less).
            holds (skip_item-arm len fuel b input rest at (rw d passed), less))
      λ not_d.
        Ensures-if (b == 108)
          (λ l.
            Ensures-bind
              (list_passed len fuel input λ rest small.
                items_skip (decode fuel) (skip_item len fuel) (length input) values strings fuel
                  rest (omega (arith, small)) (omega (arith, small, enough)))
              λ (items, rest) (passed, less).
                holds (skip_item-arm len fuel b input rest at (rw not_d (rw l passed)), less))
          λ not_l.
            Ensures-if (b == 105)
              (λ i. Ensures-bind (integer_passed input) λ (n, rest) (passed, less).
                holds (
                  skip_item-arm len fuel b input rest at (rw not_d (rw not_l (rw i passed))),
                  less,
                ))
              λ not_i.
                Ensures-if (is_digit b)
                  (λ digit.
                    Ensures-bind (string_passed len fuel input part fits) λ (s, rest) h. holds h)
                  (λ _. failed)
