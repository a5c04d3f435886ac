-- ===== src/Bencode/RoundTrip.antt =====
-- What bt/src/bencode encodes it decodes.
pub mod Numbers
pub mod Heads
pub mod Maps
use rust_torrent_client.Prelude.{
  ℕ, zero, suc, ◌+◌, ◌≤◌, ◌<◌, ◌≡◌, refl, sym, ap, ◌∙◌, List, [], ◌∷◌, ◌++◌, append_assoc, Option,
  none, some, Bool, true, false, Bytes, ltb, ◌==◌, compare, Ordering, if◌then◌else◌, length,
  length-append, arith, Outcome, ok, err, ◌>>=◌, u64_mod,
}
use rust_torrent_client.Bencode.Decimal.{
  ℤ, pos, negsuc, is_digit, print, print_int, digits-Leads, Leads, leads_zero, leads,
}
use rust_torrent_client.Bencode.Utf8.{is_utf8}
use rust_torrent_client.Bencode.Encode.{
  Value, integer, bytes, string, list, dict, Values, empty_list, value, Entries, empty_map, entry,
  insert, insert_at, compare_bytes, encode, write_list, write_dict, write_bytes, write_integer,
}
use rust_torrent_client.Bencode.Decode.{
  Read, peek_byte, expect, read_str, read_byte_string, read_integer, read_items, read_entries,
  read_list, read_dict, decode_arm, decode,
}
use rust_torrent_client.Bencode.RoundTrip.Numbers.{
  FitsInt, read_integer-write_integer, read_byte_string-write_bytes,
}
use rust_torrent_client.Bencode.RoundTrip.Heads.{
  Begins, BeginsDigit, write_bytes-BeginsDigit, encode-Begins, begins,
}
use rust_torrent_client.Bencode.RoundTrip.Maps.{
  AllBefore, AllAfter, snoc, append, insert-AllBefore, append-snoc, Follow, Follow-snoc,
  append-empty_map, Follow-empty_map,
}

-- The values that can be encoded: integers fit an `i64` and lengths a `usize`, a string is UTF-8, a
-- byte string is not, and a map has its keys in order.
unfoldable mutual
  pub IsEncodable : Value → Type 0
  IsEncodable (integer n) = FitsInt n
  IsEncodable (bytes b) = (is_utf8 b ≡ false) × (length b < u64_mod)
  IsEncodable (string s) = (is_utf8 s ≡ true) × (length s < u64_mod)
  IsEncodable (list values) = AllEncodable values
  IsEncodable (dict map) = MapEncodable map

  pub AllEncodable : Values → Type 0
  AllEncodable empty_list = Unit
  AllEncodable (value v values) = IsEncodable v × AllEncodable values

  pub MapEncodable : Entries → Type 0
  MapEncodable empty_map = Unit
  MapEncodable (entry k v map) =
      (is_utf8 k ≡ true) × (length k < u64_mod) × AllAfter k map × IsEncodable v × MapEncodable map

decode-digit :
    (fuel b : ℕ) (tail s rest : Bytes)
    → is_digit b ≡ true
    → read_byte_string (b ∷ tail) ≡ ok (s, rest)
    → decode (suc fuel) (b ∷ tail) ≡ ok ((if is_utf8 s then string s else bytes s), rest)
unfolding decode decode_arm peek_byte
decode-digit fuel b tail s rest h e = rw e (ground (arith, h))

-- A string or byte string is decoded by its first digit.
pub decode-write_bytes :
    (fuel : ℕ) (s rest : Bytes)
    → length s < u64_mod
    → decode (suc fuel) (write_bytes s ++ rest)
      ≡ ok ((if is_utf8 s then string s else bytes s), rest)
decode-write_bytes fuel s rest h =
    let d = write_bytes-BeginsDigit s rest in
    let e = ap read_byte_string (sym d.is) ∙ read_byte_string-write_bytes s rest h in
    ap (decode (suc fuel)) d.is ∙ decode-digit fuel d.head d.tail s rest d.digit e

-- A round of `read_items` on a value and more.
read_items-step :
    (dec : Bytes → Read Value) (fuel : ℕ) (input rest rest_1 : Bytes) (v : Value) (values : Values)
    → Begins input
    → dec input ≡ ok (v, rest)
    → read_items dec fuel rest ≡ ok (values, rest_1)
    → read_items dec (suc fuel) input ≡ ok (value v values, rest_1)
unfolding read_items peek_byte
read_items-step dec fuel input rest rest_1 v values b e k =
    rw e (rw k (rw b.is (ground (arith, b.going))))

read_entries-step :
    (dec : Bytes → Read Value) (fuel : ℕ) (map : Entries) (input rest rest_1 rest_2 key : Bytes)
    (v : Value) (result : Entries)
    → Begins input
    → read_str input ≡ ok (key, rest)
    → dec rest ≡ ok (v, rest_1)
    → read_entries dec fuel (insert key v map) rest_1 ≡ ok (result, rest_2)
    → read_entries dec (suc fuel) map input ≡ ok (result, rest_2)
unfolding read_entries peek_byte
read_entries-step dec fuel map input rest rest_1 rest_2 key v result b e k l =
    rw e (rw k (rw l (rw b.is (ground (arith, b.going)))))

length-encode_pos : (v : Value) → 0 < length (encode v)
length-encode_pos v =
    let b = encode-Begins v [] in omega (arith, ap length b.is, length-append (encode v) [])

length-write_bytes_pos : (s : Bytes) → 0 < length (write_bytes s)
length-write_bytes_pos s =
    let b = write_bytes-BeginsDigit s [] in
    omega (arith, ap length b.is, length-append (write_bytes s) [])

read_str-write_bytes :
    (s rest : Bytes)
    → is_utf8 s ≡ true
    → length s < u64_mod
    → read_str (write_bytes s ++ rest) ≡ ok (s, rest)
unfolding read_str
read_str-write_bytes s rest valid h = rw (read_byte_string-write_bytes s rest h) (rw valid)

-- The arms for a list and for a map.
decode-list :
    (fuel : ℕ) (values : Values) (input rest : Bytes)
    → read_items (decode fuel) fuel input ≡ ok (values, 101 ∷ rest)
    → decode (suc fuel) (108 ∷ input) ≡ ok (list values, rest)
unfolding decode decode_arm peek_byte read_list expect
decode-list fuel values input rest e = rw e

decode-dict :
    (fuel : ℕ) (map : Entries) (input rest : Bytes)
    → read_entries (decode fuel) fuel empty_map input ≡ ok (map, 101 ∷ rest)
    → decode (suc fuel) (100 ∷ input) ≡ ok (dict map, rest)
unfolding decode decode_arm peek_byte read_dict expect
decode-dict fuel map input rest e = rw e

decode-integer :
    (fuel : ℕ) (n : ℤ) (rest : Bytes)
    → FitsInt n
    → decode (suc fuel) (write_integer n ++ rest) ≡ ok (integer n, rest)
unfolding decode decode_arm peek_byte write_integer
decode-integer fuel n rest h =
    let e : read_integer (write_integer n ++ rest) ≡ ok (n, rest) =
      read_integer-write_integer n rest h in
    rw e

read_items-end :
    (dec : Bytes → Read Value) (fuel : ℕ) (rest : Bytes)
    → read_items dec (suc fuel) (101 ∷ rest) ≡ ok (empty_list, 101 ∷ rest)
unfolding read_items peek_byte
read_items-end dec fuel rest = refl

read_entries-end :
    (dec : Bytes → Read Value) (fuel : ℕ) (map : Entries) (rest : Bytes)
    → read_entries dec (suc fuel) map (101 ∷ rest) ≡ ok (append map empty_map, 101 ∷ rest)
unfolding read_entries peek_byte
read_entries-end dec fuel map rest = ap (λ m. ok (m, 101 ∷ rest)) (sym (append-empty_map map))

mutual
  unfolding encode write_list write_dict IsEncodable

  value_read :
      (v : Value) (fuel : ℕ) (rest : Bytes)
      → IsEncodable v
      → length (encode v) ≤ fuel
      → decode fuel (encode v ++ rest) ≡ ok (v, rest)
  value_read v zero rest w enough = absurd (omega (arith, length-encode_pos v))
  value_read (integer n) (suc fuel) rest w enough = decode-integer fuel n rest w
  value_read (bytes b) (suc fuel) rest w enough = decode-write_bytes fuel b rest w.1 ∙ rw w.0
  value_read (string s) (suc fuel) rest w enough = decode-write_bytes fuel s rest w.1 ∙ rw w.0
  value_read (list values) (suc fuel) rest w enough = simp append_assoc (
      decode-list fuel values (write_list values ++ 101 ∷ rest) rest (
        values_read values fuel fuel rest w
          (omega (arith, length-append (write_list values) (101 ∷ [])))
          (omega (arith, length-append (write_list values) (101 ∷ [])))))
  value_read (dict map) (suc fuel) rest w enough = simp append_assoc (
      decode-dict fuel map (write_dict map ++ 101 ∷ rest) rest (
        entries_read map fuel fuel empty_map rest w (Follow-empty_map map)
          (omega (arith, length-append (write_dict map) (101 ∷ [])))
          (omega (arith, length-append (write_dict map) (101 ∷ [])))))

  values_read :
      (values : Values) (fuel rounds : ℕ) (rest : Bytes)
      → AllEncodable values
      → length (write_list values) ≤ fuel
      → length (write_list values) < rounds
      → read_items (decode fuel) rounds (write_list values ++ 101 ∷ rest) ≡ ok (values, 101 ∷ rest)
  values_read values fuel zero rest w enough more = absurd (omega arith)
  values_read empty_list fuel (suc rounds) rest w enough more =
      read_items-end (decode fuel) rounds rest
  values_read (value v values) fuel (suc rounds) rest w enough more =
      let size = length-append (encode v) (write_list values) in
      simp append_assoc (
        read_items-step (decode fuel) rounds (encode v ++ (write_list values ++ 101 ∷ rest))
          (write_list values ++ 101 ∷ rest) (101 ∷ rest) v values
          (encode-Begins v (write_list values ++ 101 ∷ rest))
          (value_read v fuel (write_list values ++ 101 ∷ rest) w.0 (omega (arith, size)))
          (values_read values fuel rounds rest w.1 (omega (arith, size))
            (omega (arith, size, length-encode_pos v))))

  entries_read :
      (map : Entries) (fuel rounds : ℕ) (before : Entries) (rest : Bytes)
      → MapEncodable map
      → Follow before map
      → length (write_dict map) ≤ fuel
      → length (write_dict map) < rounds
      → read_entries (decode fuel) rounds before (write_dict map ++ 101 ∷ rest)
        ≡ ok (append before map, 101 ∷ rest)
  entries_read map fuel zero before rest w f enough more = absurd (omega arith)
  entries_read empty_map fuel (suc rounds) before rest w f enough more =
      read_entries-end (decode fuel) rounds before rest
  entries_read (entry k v map) fuel (suc rounds) before rest w f enough more =
      let size = length-append (write_bytes k) (encode v ++ write_dict map) in
      let size_v = length-append (encode v) (write_dict map) in
      let input_v = encode v ++ (write_dict map ++ 101 ∷ rest) in
      simp append_assoc (
        read_entries-step (decode fuel) rounds before (write_bytes k ++ input_v) input_v
          (write_dict map ++ 101 ∷ rest) (101 ∷ rest) k v (append before (entry k v map))
          (begins k input_v) (read_str-write_bytes k input_v w.0 w.1)
          (value_read v fuel (write_dict map ++ 101 ∷ rest) w.3 (omega (arith, size, size_v)))
          (rw (insert-AllBefore k v before f.0) (
            entries_read map fuel rounds (snoc before k v) rest w.4
              (Follow-snoc before k v map f.1 w.2) (omega (arith, size, size_v))
              (omega (arith, size, size_v, length-encode_pos v))
            ∙ ap (λ m. ok (m, 101 ∷ rest)) (append-snoc before k v map))))

-- A value that can be encoded is decoded from its encoding, whatever follows it, and exactly its
-- own bytes are taken; the length of the input is fuel enough.
pub decode-encode :
    (v : Value) (rest : Bytes)
    → IsEncodable v
    → decode (length (encode v ++ rest)) (encode v ++ rest) ≡ ok (v, rest)
decode-encode v rest w =
    value_read v (length (encode v ++ rest)) rest w (omega (arith, length-append (encode v) rest))

-- With fuel for every byte of the value.
pub decode-encode_fuel :
    (v : Value) (fuel : ℕ) (rest : Bytes)
    → IsEncodable v
    → length (encode v) ≤ fuel
    → decode fuel (encode v ++ rest) ≡ ok (v, rest)
decode-encode_fuel v fuel rest w enough = value_read v fuel rest w enough
