-- ===== src/Bencode/RoundTrip/Numbers.antt =====
-- Numbers and strings of bencode are read back (bt/src/bencode/decode.rs, encode.rs).
use rust_torrent_client.Prelude.{
  ℕ, suc, ◌<◌, ◌≡◌, refl, [], ◌∷◌, ◌++◌, append_assoc, Option, some, false, Bytes, All, length,
  length-append, take-append, drop-append, arith, ok, u64_mod,
}
use rust_torrent_client.Peer.Handshake.{bytes_eq}
use rust_torrent_client.Bencode.Decimal.{
  ℤ, pos, negsuc, i64_max, IsDigit, print, parse_digits, parse_usize, parse_i64,
  parse_digits-digits, digits-IsDigit, Leads, leads_zero, leads, digits-Leads,
}
use rust_torrent_client.Bencode.Encode.{write_integer, write_bytes}
use rust_torrent_client.Bencode.Decode.{
  expect, is_number, read_while_number, malformed, read_number, read_byte_string, read_integer,
}

read_while_number-digits :
    (ds : Bytes) (b : ℕ) (rest : Bytes)
    → All IsDigit ds
    → is_number b ≡ false
    → read_while_number (ds ++ (b ∷ rest)) ≡ ok (ds, b ∷ rest)
unfolding read_while_number
read_while_number-digits [] b rest h k = rw k
read_while_number-digits (d ∷ ds) b rest h k =
    rw (read_while_number-digits ds b rest h.1 k) (ground (arith, h.0))

malformed-Leads : {n : ℕ} {ds : Bytes} → Leads n ds → malformed ds ≡ false
unfolding malformed bytes_eq
malformed-Leads leads_zero = refl
malformed-Leads (leads {d = d} {ds = []} lo hi some_n) = ground arith
malformed-Leads (leads {d = d} {ds = c ∷ ds} lo hi some_n) = ground arith

-- With a minus sign.
malformed-minus : {n : ℕ} {ds : Bytes} → Leads (suc n) ds → malformed (45 ∷ ds) ≡ false
unfolding malformed bytes_eq
malformed-minus (leads {d = d} {ds = ds} lo hi some_n) = ground arith

parse_usize-Leads :
    {n : ℕ} {ds : Bytes}
    → Leads n ds
    → parse_digits 0 ds ≡ some n
    → n < u64_mod
    → parse_usize ds ≡ some n
unfolding parse_usize
parse_usize-Leads leads_zero e h = rw e (ground arith)
parse_usize-Leads (leads lo hi some_n) e h = rw e (ground arith)

parse_i64-Leads :
    {n : ℕ} {ds : Bytes}
    → Leads n ds
    → parse_digits 0 ds ≡ some n
    → n < i64_max
    → parse_i64 ds ≡ some (pos n)
unfolding parse_i64
parse_i64-Leads leads_zero e h = rw e (ground arith)
parse_i64-Leads (leads {ds = []} lo hi some_n) e h = rw e (ground arith)
parse_i64-Leads (leads {d = d} {ds = c ∷ ds} lo hi some_n) e h = rw e (ground arith)

parse_i64-minus :
    {n : ℕ} {ds : Bytes}
    → Leads (suc n) ds
    → parse_digits 0 ds ≡ some (suc n)
    → n < i64_max
    → parse_i64 (45 ∷ ds) ≡ some (negsuc n)
unfolding parse_i64
parse_i64-minus (leads lo hi some_n) e h = rw e (ground arith)

read_number-digits :
    {A : Type 0} (parse : Bytes → Option A) (ds : Bytes) (a : A) (b : ℕ) (rest : Bytes)
    → read_while_number (ds ++ (b ∷ rest)) ≡ ok (ds, b ∷ rest)
    → malformed ds ≡ false
    → parse ds ≡ some a
    → read_number parse (ds ++ (b ∷ rest)) ≡ ok (a, b ∷ rest)
unfolding read_number
read_number-digits parse ds a b rest e good parsed = rw e (rw good (rw parsed))

-- The integers of an `i64`.
abbrev pub FitsInt : ℤ → Type 0
FitsInt (pos n) = n < i64_max
FitsInt (negsuc n) = n < i64_max

-- An `i64` is read back as it was written, and only its bytes are taken.
pub read_integer-write_integer :
    (n : ℤ) (rest : Bytes) → FitsInt n → read_integer (write_integer n ++ rest) ≡ ok (n, rest)
unfolding read_integer write_integer expect
read_integer-write_integer (pos n) rest h = simp append_assoc (
    rw (
      read_number-digits parse_i64 (print n) (pos n) 101 rest
        (read_while_number-digits (print n) 101 rest (digits-IsDigit n n (omega arith)) refl)
        (malformed-Leads (digits-Leads n n (omega arith)))
        (parse_i64-Leads (digits-Leads n n (omega arith)) (parse_digits-digits n n (omega arith))
          h)))
read_integer-write_integer (negsuc n) rest h = simp append_assoc (
    rw (
      read_number-digits parse_i64 (45 ∷ print (suc n)) (negsuc n) 101 rest
        (unfold read_while_number in
          rw (
            read_while_number-digits (print (suc n)) 101 rest
              (digits-IsDigit (suc n) (suc n) (omega arith)) refl))
        (malformed-minus (digits-Leads (suc n) (suc n) (omega arith)))
        (parse_i64-minus (digits-Leads (suc n) (suc n) (omega arith))
          (parse_digits-digits (suc n) (suc n) (omega arith)) h)))

-- A byte string is read back as it was written, and only its bytes are taken.
pub read_byte_string-write_bytes :
    (s rest : Bytes) → length s < u64_mod → read_byte_string (write_bytes s ++ rest) ≡ ok (s, rest)
unfolding read_byte_string write_bytes expect
read_byte_string-write_bytes s rest h =
    let n = length s in
    simp append_assoc (
      rw
        (read_number-digits parse_usize (print n) n 58 (s ++ rest)
          (read_while_number-digits (print n) 58 (s ++ rest) (digits-IsDigit n n (omega arith))
            refl)
          (malformed-Leads (digits-Leads n n (omega arith)))
          (parse_usize-Leads (digits-Leads n n (omega arith))
            (parse_digits-digits n n (omega arith)) h))
        (ground (arith, length-append s rest, take-append s rest, drop-append s rest)))
