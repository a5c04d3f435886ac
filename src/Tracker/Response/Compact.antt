-- ===== src/Tracker/Response/Compact.antt =====
-- The compact list of peers of a tracker, bt/src/tracker/tracker_supervisor.rs.
use rust_torrent_client.Prelude.{
  ℕ, zero, suc, ◌+◌, ◌*◌, ◌/◌, ◌%◌, ◌<◌, ◌≡◌, ◌≢◌, ◌⊎◌, inl, inr, refl, List, [], ◌∷◌, Bytes,
  IsByte, AreBytes, All, lt→ltb, length, arith, Outcome, ok, panic,
}
use rust_torrent_client.Events.{Peer}
use rust_torrent_client.Bencode.Decode.{DecodeError}
use rust_torrent_client.Tracker.Response.{u16_mod, dotted, from_bytes, from_chunks, compact_peers}

-- An address and a port as a tracker sends them.
pub record Address : Type 0 where
  pub a : ℕ
  pub b : ℕ
  pub c : ℕ
  pub d : ℕ
  pub port : ℕ

unfoldable pub address_bytes : List Address → Bytes
address_bytes [] = []
address_bytes (x ∷ xs) = x.a ∷ x.b ∷ x.c ∷ x.d ∷ x.port / 256 ∷ x.port % 256 ∷ address_bytes xs

unfoldable pub address_peers : List Address → List Peer
address_peers [] = []
address_peers (x ∷ xs) = record { ip = dotted x.a x.b x.c x.d; port = x.port } ∷ address_peers xs

from_bytes_lem :
    (a b c d high low port : ℕ)
    → port < u16_mod
    → port ≡ high * 256 + low
    → from_bytes (a ∷ b ∷ c ∷ d ∷ high ∷ low ∷ [])
      ≡ ok (record { ip = dotted a b c d; port = port })
unfolding from_bytes
from_bytes_lem a b c d high low port fits e = rw (
  lt→ltb (high * 256) u16_mod (omega (arith, fits, e)),
  lt→ltb (high * 256 + low) u16_mod (omega (arith, fits, e)),
  e,
)

-- The bytes are those of addresses, and these are read, or they are not as many as six for each
-- address, and reading them panics.
abbrev pub Reads : Bytes → Outcome DecodeError (List Peer) → Type 0
Reads input r =
    ((addresses : List Address) × (input ≡ address_bytes addresses)
      × All (λ x. x.port < u16_mod) addresses
      × (r ≡ ok (address_peers addresses)))
    ⊎ ((length input % 6 ≢ 0) × (r ≡ panic))

from_chunks-six :
    (a b c d high low fuel : ℕ) (rest : Bytes)
    → IsByte high
    → IsByte low
    → Reads rest (from_chunks fuel rest)
    → Reads
        (a ∷ b ∷ c ∷ d ∷ high ∷ low ∷ rest)
        (from_chunks (suc fuel) (a ∷ b ∷ c ∷ d ∷ high ∷ low ∷ rest))
unfolding from_chunks address_bytes address_peers
from_chunks-six a b c d high low fuel rest h l (inl (addresses, same, fits, read)) =
    let port = high * 256 + low in
    let first = from_bytes_lem a b c d high low port (omega (arith, h, l)) refl in
    let high_is : high ≡ port / 256 = omega (arith, h, l) in
    let low_is : low ≡ port % 256 = omega (arith, h, l) in
    inl (
      record { a = a; b = b; c = c; d = d; port = port } ∷ addresses,
      cc (same, high_is, low_is),
      (omega (arith, h, l), fits),
      rw (first, read) (ground arith),
    )
from_chunks-six a b c d high low fuel rest h l (inr (ragged, read)) =
    let port = high * 256 + low in
    let first = from_bytes_lem a b c d high low port (omega (arith, h, l)) refl in
    inr (λ e. ragged (omega (arith, e)), rw (first, read) (ground arith))

from_chunks-Reads :
    (input : Bytes) (fuel : ℕ)
    → AreBytes input
    → length input < fuel
    → Reads input (from_chunks fuel input)
unfolding from_chunks from_bytes address_bytes address_peers
from_chunks-Reads input zero h enough = absurd (omega arith)
from_chunks-Reads [] (suc fuel) h enough = inl ([], refl, tt, refl)
from_chunks-Reads (a ∷ []) (suc fuel) h enough = inr (λ e. absurd (omega (arith, e)), ground arith)
from_chunks-Reads (a ∷ b ∷ []) (suc fuel) h enough =
    inr (λ e. absurd (omega (arith, e)), ground arith)
from_chunks-Reads (a ∷ b ∷ c ∷ []) (suc fuel) h enough =
    inr (λ e. absurd (omega (arith, e)), ground arith)
from_chunks-Reads (a ∷ b ∷ c ∷ d ∷ []) (suc fuel) h enough =
    inr (λ e. absurd (omega (arith, e)), ground arith)
from_chunks-Reads (a ∷ b ∷ c ∷ d ∷ high ∷ []) (suc fuel) h enough =
    inr (λ e. absurd (omega (arith, e)), ground arith)
from_chunks-Reads (a ∷ b ∷ c ∷ d ∷ high ∷ low ∷ rest) (suc fuel) h enough =
    from_chunks-six a b c d high low fuel rest h.1.1.1.1.0 h.1.1.1.1.1.0
      (from_chunks-Reads rest fuel h.1.1.1.1.1.1 (omega arith))

-- A compact list of peers, a string of bytes, is read as the addresses whose bytes it is: four
-- bytes of an address, written with dots, and two of a port. Reading it panics if its length is no
-- multiple of six, and only then.
pub compact_peers-Reads : (input : Bytes) → AreBytes input → Reads input (compact_peers input)
unfolding compact_peers
compact_peers-Reads input h = from_chunks-Reads input (suc (length input)) h (omega arith)
