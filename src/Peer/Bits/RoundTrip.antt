-- ===== src/Peer/Bits/RoundTrip.antt =====
-- A bitfield as it is sent is read back, bit for bit.
use Prim.Native.Nat.{bit_or, bit_and}
use rust_torrent_client.Prelude.{
  ℕ, zero, suc, ◌+◌, ◌-◌, ◌*◌, ◌/◌, ◌%◌, ◌^◌, ◌≤◌, ◌<◌, ◌≡◌, refl, ap, ◌∙◌, List, [], ◌∷◌, some,
  Bool, true, false, not, Bytes, AreBytes, IsByte, ltb, ◌==◌, if◌then◌else◌, length, get_elem?, set,
  replicate, length-set, length-replicate, get_elem?-lt, get_elem?-some, get_elem?-set, All-get,
  All-set, arith,
}
use rust_torrent_client.Prelude.Loops.{forall_lt, forall_lt-at}
use rust_torrent_client.Peer.Bits.{mask, set_bit, read_bit, set_bits, bitfield_bytes}

abbrev bool_eq : Bool → Bool → Bool
bool_eq true b = b
bool_eq false b = not b

abbrev bit : ℕ → ℕ → Bool
bit byte k = not (bit_and byte (2 ^ (7 - k)) == 0)

-- One entry of the table: a byte, the bit that is set, and the bit that is read.
abbrev entry : ℕ → ℕ → ℕ → Bool
entry b k j =
    if ltb (bit_or b (2 ^ (7 - k))) 256
    then bool_eq (bit (bit_or b (2 ^ (7 - k))) j) (if k == j then true else bit b j)
    else false

-- The rows of the table: for a byte, and for a byte and the bit that is set.
abbrev row : ℕ → ℕ → Bool
row b k = forall_lt (entry b k) 8

abbrev rows : ℕ → Bool
rows b = forall_lt (row b) 8

table : forall_lt rows 256 ≡ true
unfolding forall_lt
table = refl

entry_holds : (b k j : ℕ) → b < 256 → k < 8 → j < 8 → entry b k j ≡ true
entry_holds b k j hb hk hj =
    forall_lt-at (entry b k) 8 j hj (forall_lt-at (row b) 8 k hk (forall_lt-at rows 256 b hb table))

-- One bit set in a byte, and each bit read from it.
module _ (b k j : ℕ) (hb : b < 256) (hk : k < 8) (hj : j < 8) where
  or-lt : bit_or b (2 ^ (7 - k)) < 256
  or-lt = ground (arith, entry_holds b k j hb hk hj)

  bit-or : bit (bit_or b (2 ^ (7 - k))) j ≡ (if k == j then true else bit b j)
  bit-or = ground (arith, entry_holds b k j hb hk hj)

module _ (bytes : Bytes) (i : ℕ) (valid : AreBytes bytes) (byte : ℕ)
    (at : get_elem? bytes (i / 8) ≡ some byte) where
  abbrev written : Bytes
  written = set bytes (i / 8) (bit_or byte (mask i))

  byte-lt : byte < 256
  byte-lt = All-get IsByte bytes (i / 8) byte valid at

  written-AreBytes : AreBytes written
  written-AreBytes =
      All-set IsByte bytes (i / 8) _ valid
        (or-lt byte (i % 8) 0 byte-lt (omega arith) (omega arith))

  index-lt : i / 8 < length bytes
  index-lt = get_elem?-lt bytes (i / 8) byte at

  read_bit-written : (j : ℕ) → read_bit written j ≡ (if i == j then some true else read_bit bytes j)
  unfolding read_bit
  read_bit-written j = rw (get_elem?-set bytes (i / 8) (j / 8) (bit_or byte (mask i)) index-lt) (
      ground (
        arith,
        at,
        ap (get_elem? bytes) {x = i / 8} {y = j / 8},
        bit-or byte (i % 8) (j % 8) byte-lt (omega arith) (omega arith),
      ))

  set_bit-written : set_bit bytes i ≡ some written
  unfolding set_bit
  set_bit-written = rw at

-- Whether the loop sets the bit `j`, if `has_pieces` stand at `i` and after it.
abbrev flag : List Bool → ℕ → ℕ → Bool
flag [] i j = false
flag (h ∷ hs) i j = if (if h then i == j else false) then true else flag hs (i + 1) j

abbrev Sets : List Bool → ℕ → Bytes → Bytes → Type 0
Sets hs i bytes out =
    AreBytes out
    × (length out ≡ length bytes)
    × ((j : ℕ) → read_bit out j ≡ (if flag hs i j then some true else read_bit bytes j))

set_bits-true :
    (hs : List Bool) (i : ℕ) (bytes out : Bytes)
    → set_bit bytes i ≡ some out
    → set_bits i (true ∷ hs) bytes ≡ set_bits (i + 1) hs out
unfolding set_bits
set_bits-true hs i bytes out e = rw (e, set_bits)

set_bits-Sets :
    (hs : List Bool) (i : ℕ) (bytes : Bytes)
    → AreBytes bytes
    → i + length hs ≤ 8 * length bytes
    → (out : Bytes) × (set_bits i hs bytes ≡ some out) × Sets hs i bytes out
unfolding set_bits
set_bits-Sets [] i bytes valid fits = (bytes, refl, (valid, refl, λ j. refl))
set_bits-Sets (false ∷ hs) i bytes valid fits = set_bits-Sets hs (i + 1) bytes valid (omega arith)
set_bits-Sets (true ∷ hs) i bytes valid fits =
    let (byte, at) = get_elem?-some bytes (i / 8) (omega arith) in
    let size = length-set bytes (i / 8) (bit_or byte (mask i)) in
    let (out, e, s) =
      set_bits-Sets hs (i + 1) (written bytes i valid byte at)
        (written-AreBytes bytes i valid byte at) (omega (arith, size)) in
    (
      out,
      set_bits-true hs i bytes _ (set_bit-written bytes i valid byte at) ∙ e,
      (s.0, s.1 ∙ size, λ j. ground (arith, s.2 j, read_bit-written bytes i valid byte at j)),
    )

replicate-AreBytes : (n : ℕ) → AreBytes (replicate n 0)
replicate-AreBytes zero = tt
replicate-AreBytes (suc n) = (omega arith, replicate-AreBytes n)

get_elem?-replicate : (n i a : ℕ) → i < n → get_elem? (replicate n a) i ≡ some a
get_elem?-replicate zero i a h = elim h [ ]
get_elem?-replicate (suc n) zero a h = refl
get_elem?-replicate (suc n) (suc i) a h = get_elem?-replicate n i a (omega arith)

zero_table : forall_lt (λ k. not (bit 0 k)) 8 ≡ true
unfolding forall_lt
zero_table = refl

read_bit-replicate : (n j : ℕ) → j < 8 * n → read_bit (replicate n 0) j ≡ some false
unfolding read_bit
read_bit-replicate n j h =
    rw (get_elem?-replicate n (j / 8) 0 (omega arith))
      (ground (arith, forall_lt-at (λ k. not (bit 0 k)) 8 (j % 8) (omega arith) zero_table))

flag-before : (hs : List Bool) (i j : ℕ) → j < i → flag hs i j ≡ false
flag-before [] i j h = refl
flag-before (x ∷ hs) i j h = ground (arith, flag-before hs (i + 1) j)

flag-past : (hs : List Bool) (i j : ℕ) → i + length hs ≤ j → flag hs i j ≡ false
flag-past [] i j h = refl
flag-past (x ∷ hs) i j h = ground (arith, flag-past hs (i + 1) j)

flag-get :
    (hs : List Bool) (i j k : ℕ) (h : Bool) → i + j ≡ k → get_elem? hs j ≡ some h → flag hs i k ≡ h
flag-get [] i j k h s e = cc
flag-get (x ∷ hs) i zero k h s e = ground (arith, flag-before hs (i + 1) k)
flag-get (x ∷ hs) i (suc j) k h s e = ground (arith, flag-get hs (i + 1) j k h)

module _ (has_pieces : List Bool) where
  abbrev empty_bits : Bytes
  empty_bits = replicate ((length has_pieces + 7) / 8) 0

  size : length empty_bits ≡ (length has_pieces + 7) / 8
  size = length-replicate ((length has_pieces + 7) / 8) 0

  -- The bitfield of a peer has a byte for each eight pieces, rounded up. Its bits are the flags of
  -- the pieces, as `process_message` reads them, and its spare bits are zero. The indices are in
  -- bounds.
  pub bitfield_bytes_lem :
      (bytes : Bytes) × (bitfield_bytes has_pieces ≡ some bytes)
      × (length bytes ≡ (length has_pieces + 7) / 8)
      × ((i : ℕ) (h : Bool) → get_elem? has_pieces i ≡ some h → read_bit bytes i ≡ some h)
      × ((i : ℕ) → length has_pieces ≤ i → i < 8 * length bytes → read_bit bytes i ≡ some false)
  unfolding bitfield_bytes
  bitfield_bytes_lem =
      let (bytes, e, s) =
        set_bits-Sets has_pieces 0 empty_bits (replicate-AreBytes _) (omega (arith, size)) in
      (
        bytes,
        e,
        s.1 ∙ size,
        λ i h at. ground (
          arith,
          s.2 i,
          flag-get has_pieces 0 i i h,
          read_bit-replicate ((length has_pieces + 7) / 8) i,
          get_elem?-lt has_pieces i h at,
        ),
        λ i past inside. ground (
          arith,
          s.2 i,
          s.1,
          size,
          flag-past has_pieces 0 i,
          read_bit-replicate ((length has_pieces + 7) / 8) i,
        ),
      )
