-- ===== src/Bencode/Skip/Strings.antt =====
-- Passing over numbers and strings, `skip_item` of bt/src/bencode/decode.rs.
use rust_torrent_client.Prelude.{
  ℕ, suc, ◌+◌, ◌-◌, ◌≤◌, ◌<◌, ◌≡◌, refl, ap, ◌∙◌, [], ◌∷◌, Bool, true, false, Bool-cases, inl, inr,
  Bytes, ltb, le→ltb, lt→ltb, ◌==◌, if◌then◌else◌, length, length-drop, drop, arith, Outcome, ok,
  err, ◌>>=◌, u64_mod, Ensures, holds, failed, panicked, Ensures-bind, Ensures-if, Ensures-weaken,
}
use rust_torrent_client.Bencode.Decimal.{is_digit, parse_digits, parse_usize, parse_i64}
use rust_torrent_client.Bencode.Utf8.{is_utf8}
use rust_torrent_client.Bencode.Decode.{
  DecodeError, invalid_number, peek_byte, expect, is_number, read_while_number, malformed,
  or_invalid, read_number, read_byte_string, read_str, read_integer,
}
use rust_torrent_client.Bencode.Ends.{read_number-Takes, read_while-Takes, or_invalid-Ends}
use rust_torrent_client.Bencode.Skip.{skip_while, skip, skip_arm, skip_item}

-- A run that ends, with the result that it has.
run :
    {A : Type 0} {P : A → Type 0} {r : Outcome DecodeError A}
    → Ensures P r
    → Ensures (λ a. P a × (r ≡ ok a)) r
run (holds {a} h) = holds (h, refl)
run failed = failed
run panicked = panicked

-- Passing over gives the rest, and the rest is shorter.
abbrev pub Skips : Bytes → Outcome DecodeError Bytes → {A : Type 0} → A × Bytes → Type 0
Skips input skipped (a, rest) = (skipped ≡ ok rest) × (length rest + 1 ≤ length input)

skip_while-read_while :
    (input : Bytes)
    → Ensures
        (λ (buf, rest). (length rest ≤ length input) × (skip_while is_number input ≡ ok rest))
        (read_while_number input)
unfolding skip_while read_while_number
skip_while-read_while [] = failed
skip_while-read_while (b ∷ rest) = elim (Bool-cases (is_number b)) [
  | inl part ↦ rw part (
      Ensures-bind (skip_while-read_while rest)
        λ (buf, after) (less, h). holds (omega (arith, less), h))
  | inr other ↦ rw other (holds (omega arith, refl))
]

-- A number for a length starts with a digit.
abbrev starts_digit : Bytes → Bool
starts_digit [] = false
starts_digit (b ∷ rest) = is_digit b

abbrev Heads : ℕ → Bytes → Type 0
Heads b [] = Unit
Heads b (c ∷ tail) = c ≡ b

read_while-Heads :
    (b : ℕ) (rest : Bytes) → Ensures (λ (buf, after). Heads b buf) (read_while_number (b ∷ rest))
unfolding read_while_number
read_while-Heads b rest =
    Ensures-if (is_number b)
      (λ _. Ensures-bind (read_while-Takes rest) λ (buf, after) _. holds refl) (λ _. holds tt)

unparsed :
    {P : ℕ × Bytes → Type 0} (b : ℕ) (buf after : Bytes)
    → is_digit b ≡ false
    → Heads b buf
    → Ensures P (do
      n ← if malformed buf then err invalid_number else or_invalid (parse_usize buf)
      ok (n, after))
unfolding malformed parse_usize parse_digits
unparsed b [] after h is = failed
unparsed {P} b (c ∷ buf) after h is =
    let none_digit : is_digit c ≡ false = ap is_digit is ∙ h in
    Ensures-bind {P = λ _. ⊥}
      (Ensures-if (malformed (c ∷ buf)) (λ _. failed) (λ _. rw none_digit failed)) λ n e. absurd e

no_digit :
    {P : ℕ × Bytes → Type 0} (b : ℕ) (rest : Bytes)
    → is_digit b ≡ false
    → Ensures P (read_number parse_usize (b ∷ rest))
unfolding read_number
no_digit b rest h =
    Ensures-bind (read_while-Heads b rest) λ (buf, after) is. unparsed b buf after h is

read_number-digit :
    (input : Bytes)
    → Ensures
        (λ (n, rest).
          (starts_digit input ≡ true)
          × (length rest ≤ length input)
          × (read_number parse_usize input ≡ ok (n, rest)))
        (read_number parse_usize input)
unfolding read_number read_while_number
read_number-digit [] = failed
read_number-digit (b ∷ rest) = elim (Bool-cases (is_digit b)) [
  | inl digit ↦
      Ensures-weaken (run (read_number-Takes parse_usize (b ∷ rest)))
        λ (n, after) (h, e). (digit, omega (arith, h), e)
  | inr other ↦ no_digit b rest other
]

pub expect-run :
    (byte : ℕ) (input : Bytes)
    → Ensures
        (λ rest.
          (length rest + 1 ≤ length input) × (rest ≡ drop 1 input) × (expect byte input ≡ ok rest))
        (expect byte input)
unfolding expect
expect-run byte [] = failed
expect-run byte (b ∷ rest) = elim (Bool-cases (b == byte)) [
  | inl same ↦ rw same (holds (omega arith, refl, refl))
  | inr other ↦ rw other failed
]

skip-run :
    (len n : ℕ) (rest : Bytes)
    → n ≤ length rest
    → length rest ≤ len
    → len < u64_mod
    → skip len n rest ≡ ok (drop n rest)
unfolding skip
skip-run len n rest inside part fits =
    rw (lt→ltb (len - length rest + n) u64_mod (omega (arith, inside, part, fits)))
      (rw (le→ltb len (len - length rest + n) (omega (arith, inside, part))))

-- The first byte is a digit, and so none of the letters.
skip_item-digit :
    (len fuel : ℕ) (input : Bytes)
    → starts_digit input ≡ true
    → skip_item len (suc fuel) input
      ≡ (do (n, rest) ← read_number parse_usize input; rest_1 ← expect 58 rest; skip len n rest_1)
unfolding skip_item skip_arm peek_byte
skip_item-digit len fuel [] h = cc
skip_item-digit len fuel (b ∷ rest) h = ground (arith, h)

pub string_passed :
    (len fuel : ℕ) (input : Bytes)
    → length input ≤ len
    → len < u64_mod
    → Ensures (Skips input (skip_item len (suc fuel) input)) (read_byte_string input)
unfolding read_byte_string
string_passed len fuel input part fits =
    Ensures-bind (read_number-digit input) λ (n, rest) (digit, less, read).
      Ensures-bind (expect-run 58 rest) λ rest_1 (less_1, _, colon).
        Ensures-if (ltb (length rest_1) n) (λ _. failed)
          λ enough.
            let inside : n ≤ length rest_1 = ground (arith, enough) in
            let skipped = skip-run len n rest_1 inside (omega (arith, less, less_1, part)) fits in
            holds (
              skip_item-digit len fuel input digit ∙ rw (read, colon, skipped),
              omega (arith, less, less_1, length-drop n rest_1),
            )

pub key_passed :
    (len fuel : ℕ) (input : Bytes)
    → length input ≤ len
    → len < u64_mod
    → Ensures (Skips input (skip_item len (suc fuel) input)) (read_str input)
unfolding read_str
key_passed len fuel input part fits =
    Ensures-bind (string_passed len fuel input part fits)
      λ (s, rest) h. Ensures-if (is_utf8 s) (λ _. holds h) (λ _. failed)

number_passed :
    (input : Bytes)
    → Ensures
        (λ (n, rest). (length rest ≤ length input) × (skip_while is_number input ≡ ok rest))
        (read_number parse_i64 input)
unfolding read_number
number_passed input = Ensures-bind (skip_while-read_while input) λ (buf, rest) h.
    Ensures-bind {P = λ _. Unit {0}}
      (Ensures-if (malformed buf) (λ _. failed) (λ _. or_invalid-Ends (parse_i64 buf)))
      λ n _. holds h

pub integer_passed :
    (input : Bytes)
    → Ensures
        (Skips input
          (do rest ← expect 105 input; rest_1 ← skip_while is_number rest; expect 101 rest_1))
        (read_integer input)
unfolding read_integer
integer_passed input = Ensures-bind (expect-run 105 input) λ rest (less, _, i).
    Ensures-bind (number_passed rest) λ (n, rest_1) (less_1, passed).
      Ensures-bind (expect-run 101 rest_1)
        λ rest_2 (less_2, _, e). holds (rw (i, passed, e), omega (arith, less, less_1, less_2))
