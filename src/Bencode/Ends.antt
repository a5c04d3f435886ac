-- ===== src/Bencode/Ends.antt =====
-- Decoding ends: bt/src/bencode/decode.rs takes at least one byte for each value.
use rust_torrent_client.Prelude.{
  ℕ, zero, suc, ◌+◌, ◌≤◌, ◌<◌, [], ◌∷◌, Option, none, some, Bytes, ltb, ◌==◌, length, length-drop,
  arith, Ensures, holds, failed, Ensures-if, Ensures-bind, Ensures-weaken,
}
use rust_torrent_client.Bencode.Decimal.{is_digit, parse_usize, parse_i64}
use rust_torrent_client.Bencode.Utf8.{is_utf8}
use rust_torrent_client.Bencode.Encode.{Value, Entries, empty_map, insert}
use rust_torrent_client.Bencode.Decode.{
  Read, peek_byte, expect, is_number, read_while_number, malformed, or_invalid, read_number,
  read_byte_string, read_str, read_integer, read_items, read_entries, read_list, read_dict,
  decode_arm, decode,
}

-- The read ends, and leaves at least `k` bytes fewer.
abbrev pub Takes : ℕ → Bytes → {A : Type 0} → Read A → Type 0
Takes k input r = Ensures (λ (_, rest). length rest + k ≤ length input) r

pub expect-Ensures :
    (byte : ℕ) (input : Bytes)
    → Ensures (λ rest. length rest + 1 ≤ length input) (expect byte input)
unfolding expect
expect-Ensures byte [] = failed
expect-Ensures byte (b ∷ rest) = Ensures-if (b == byte) (λ _. holds (omega arith)) (λ _. failed)

pub read_while-Takes : (input : Bytes) → Takes 0 input (read_while_number input)
unfolding read_while_number
read_while-Takes [] = failed
read_while-Takes (b ∷ rest) =
    Ensures-if (is_number b)
      (λ _. Ensures-bind (read_while-Takes rest) λ (buf, after) h. holds (omega (arith, h)))
      (λ _. holds (omega arith))

pub or_invalid-Ends : {A : Type 0} (o : Option A) → Ensures (λ _. Unit {0}) (or_invalid o)
or_invalid-Ends none = failed
or_invalid-Ends (some a) = holds tt

pub read_number-Takes :
    {A : Type 0} (parse : Bytes → Option A) (input : Bytes)
    → Takes 0 input (read_number parse input)
unfolding read_number
read_number-Takes parse input = Ensures-bind (read_while-Takes input) λ (buf, rest) h.
    Ensures-bind {P = λ _. Unit {0}}
      (Ensures-if (malformed buf) (λ _. failed) (λ _. or_invalid-Ends (parse buf))) λ n _. holds h

pub read_byte_string-Takes : (input : Bytes) → Takes 1 input (read_byte_string input)
unfolding read_byte_string
read_byte_string-Takes input = Ensures-bind (read_number-Takes parse_usize input) λ (n, rest) h.
    Ensures-bind (expect-Ensures 58 rest) λ rest_1 h_1.
      Ensures-if (ltb (length rest_1) n) (λ _. failed)
        (λ _. holds (omega (arith, h, h_1, length-drop n rest_1)))

pub read_str-Takes : (input : Bytes) → Takes 1 input (read_str input)
unfolding read_str
read_str-Takes input =
    Ensures-bind (read_byte_string-Takes input)
      λ (s, rest) h. Ensures-if (is_utf8 s) (λ _. holds h) (λ _. failed)

read_integer-Takes : (input : Bytes) → Takes 1 input (read_integer input)
unfolding read_integer
read_integer-Takes input = Ensures-bind (expect-Ensures 105 input) λ rest h.
    Ensures-bind (read_number-Takes parse_i64 rest) λ (n, rest_1) h_1.
      Ensures-bind (expect-Ensures 101 rest_1) λ rest_2 h_2. holds (omega (arith, h, h_1, h_2))

pub peek_byte-Ends : (input : Bytes) → Ensures (λ _. Unit {0}) (peek_byte input)
unfolding peek_byte
peek_byte-Ends [] = failed
peek_byte-Ends (b ∷ rest) = holds tt

module _ (dec : Bytes → Read Value) (bound : ℕ)
    (reads : (input : Bytes) → length input < bound → Takes 1 input (dec input)) where
  read_items-Takes :
      (fuel : ℕ) (input : Bytes)
      → length input < bound
      → length input < fuel
      → Takes 0 input (read_items dec fuel input)
  unfolding read_items
  read_items-Takes zero input small enough = absurd (omega arith)
  read_items-Takes (suc fuel) input small enough = Ensures-bind (peek_byte-Ends input) λ b _.
      Ensures-if (b == 101) (λ _. holds (omega arith))
        (λ _. Ensures-bind (reads input small) λ (v, rest) h.
          Ensures-bind (read_items-Takes fuel rest (omega (arith, h)) (omega (arith, h)))
            λ (values, rest_1) h_1. holds (omega (arith, h, h_1)))

  read_entries-Takes :
      (fuel : ℕ) (map : Entries) (input : Bytes)
      → length input < bound
      → length input < fuel
      → Takes 0 input (read_entries dec fuel map input)
  unfolding read_entries
  read_entries-Takes zero map input small enough = absurd (omega arith)
  read_entries-Takes (suc fuel) map input small enough = Ensures-bind (peek_byte-Ends input) λ b _.
      Ensures-if (b == 101) (λ _. holds (omega arith))
        (λ _. Ensures-bind (read_str-Takes input) λ (key, rest) h.
          Ensures-bind (reads rest (omega (arith, h))) λ (v, rest_1) h_1.
            Ensures-weaken
              (read_entries-Takes fuel (insert key v map) rest_1 (omega (arith, h, h_1))
                (omega (arith, h, h_1)))
              λ (result, rest_2) h_2. omega (arith, h, h_1, h_2))

-- Whatever the bytes are, `decode` ends: fuel above their number suffices. If it returns a value, at
-- least one byte was taken for it.
pub decode-Takes :
    (fuel : ℕ) (input : Bytes) → length input < fuel → Takes 1 input (decode fuel input)
unfolding decode decode_arm read_list read_dict
decode-Takes zero input enough = absurd (omega arith)
decode-Takes (suc fuel) input enough = Ensures-bind (peek_byte-Ends input) λ b _.
    Ensures-if (b == 100)
      (λ _.
        Ensures-bind {P = λ (_, rest). length rest + 1 ≤ length input}
          (Ensures-bind (expect-Ensures 100 input) λ rest h.
            Ensures-bind
              (read_entries-Takes (decode fuel) fuel (decode-Takes fuel) fuel empty_map rest
                (omega (arith, h)) (omega (arith, h)))
              λ (map, rest_1) h_1.
                Ensures-bind (expect-Ensures 101 rest_1)
                  λ rest_2 h_2. holds (omega (arith, h, h_1, h_2)))
          λ (map, rest) h. holds h)
      (λ _.
        Ensures-if (b == 108)
          (λ _.
            Ensures-bind {P = λ (_, rest). length rest + 1 ≤ length input}
              (Ensures-bind (expect-Ensures 108 input) λ rest h.
                Ensures-bind
                  (read_items-Takes (decode fuel) fuel (decode-Takes fuel) fuel rest
                    (omega (arith, h)) (omega (arith, h)))
                  λ (values, rest_1) h_1.
                    Ensures-bind (expect-Ensures 101 rest_1)
                      λ rest_2 h_2. holds (omega (arith, h, h_1, h_2)))
              λ (values, rest) h. holds h)
          (λ _.
            Ensures-if (b == 105)
              (λ _. Ensures-bind (read_integer-Takes input) λ (n, rest) h. holds h)
              (λ _.
                Ensures-if (is_digit b)
                  (λ _. Ensures-bind (read_byte_string-Takes input) λ (s, rest) h. holds h)
                  (λ _. failed))))
