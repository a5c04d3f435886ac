-- ===== src/Bencode/RoundTrip/Heads.antt =====
-- How encoded values begin (bt/src/bencode/encode.rs): the decoder chooses by the first byte.
use rust_torrent_client.Prelude.{
  ℕ, ◌≡◌, refl, ◌∷◌, ◌++◌, append_assoc, true, false, Bytes, ◌==◌, length, arith,
}
use rust_torrent_client.Bencode.Decimal.{is_digit, digits-Leads, Leads, leads_zero, leads}
use rust_torrent_client.Bencode.Encode.{
  Value, integer, bytes, string, list, dict, encode, write_bytes, write_integer,
}

-- How an encoded value begins: never like the end of a list or a map.
pub record Begins (input : Bytes) : Type 0 where
  pub head : ℕ
  pub tail : Bytes
  pub is : input ≡ head ∷ tail
  pub going : head == 101 ≡ false

Leads-Begins : {n : ℕ} {ds : Bytes} (rest : Bytes) → Leads n ds → Begins (ds ++ rest)
Leads-Begins rest leads_zero = record { head = 48; tail = rest; is = refl; going = refl }
Leads-Begins rest (leads {d = d} {ds = ds} lo hi some_n) = record {
  head = d;
  tail = ds ++ rest;
  is = refl;
  going = ground arith;
}

-- ... and a string begins with a digit.
pub record BeginsDigit (input : Bytes) : Type 0 where
  pub head : ℕ
  pub tail : Bytes
  pub is : input ≡ head ∷ tail
  pub digit : is_digit head ≡ true

Leads-BeginsDigit : {n : ℕ} {ds : Bytes} (rest : Bytes) → Leads n ds → BeginsDigit (ds ++ rest)
Leads-BeginsDigit rest leads_zero = record { head = 48; tail = rest; is = refl; digit = refl }
Leads-BeginsDigit rest (leads {d = d} {ds = ds} lo hi some_n) = record {
  head = d;
  tail = ds ++ rest;
  is = refl;
  digit = ground arith;
}

pub write_bytes-BeginsDigit : (s rest : Bytes) → BeginsDigit (write_bytes s ++ rest)
unfolding write_bytes
write_bytes-BeginsDigit s rest =
    simp append_assoc
      (Leads-BeginsDigit (58 ∷ (s ++ rest)) (digits-Leads (length s) (length s) (omega arith)))

pub encode-Begins : (v : Value) (rest : Bytes) → Begins (encode v ++ rest)
unfolding encode write_integer
encode-Begins (integer n) rest = record { head = 105; tail = _; is = refl; going = refl }
encode-Begins (bytes b) rest =
    let d = write_bytes-BeginsDigit b rest in
    record { head = d.head; tail = d.tail; is = d.is; going = ground (arith, d.digit) }
encode-Begins (string b) rest =
    let d = write_bytes-BeginsDigit b rest in
    record { head = d.head; tail = d.tail; is = d.is; going = ground (arith, d.digit) }
encode-Begins (list values) rest = record { head = 108; tail = _; is = refl; going = refl }
encode-Begins (dict map) rest = record { head = 100; tail = _; is = refl; going = refl }

pub begins : (s rest : Bytes) → Begins (write_bytes s ++ rest)
begins s rest =
    let d = write_bytes-BeginsDigit s rest in
    record { head = d.head; tail = d.tail; is = d.is; going = ground (arith, d.digit) }
