-- ===== src/Peer/Bits.antt =====
-- The bitfield of bt/src/peer/peer_connection.rs: `send_bitfield` and the arm of `process_message`
-- that reads it.
pub mod RoundTrip
use Prim.Native.Nat.{bit_or, bit_and}
use mathlib.Core.Option
use rust_torrent_client.Prelude.{
  ℕ, zero, suc, ◌+◌, ◌-◌, ◌*◌, ◌/◌, ◌%◌, ◌^◌, List, [], ◌∷◌, Option, none, some, Bool, true, false,
  not, Bytes, ◌==◌, if◌then◌else◌, length, get_elem?, set, replicate, Outcome, ok, panic, or_panic,
  ◌>>=◌,
}
use rust_torrent_client.Ipc.{bitfield}
use rust_torrent_client.Peer.State.{PeerConnection, Env, Step, send_message}
use rust_torrent_client.Peer.Actions.{queue_blocks}

-- `1 << (7 - index_into_byte)`
abbrev pub mask : ℕ → ℕ
mask have_index = 2 ^ (7 - have_index % 8)

-- `bytes[bytes_index] |= mask`; `none` is the panic of an index out of bounds.
unfoldable pub set_bit : Bytes → ℕ → Option Bytes
set_bit bytes i =
    Option.map (λ byte. set bytes (i / 8) (bit_or byte (mask i))) (get_elem? bytes (i / 8))

-- `(bytes[bytes_index] & mask) != 0`
unfoldable pub read_bit : Bytes → ℕ → Option Bool
read_bit bytes i = Option.map (λ byte. not (bit_and byte (mask i) == 0)) (get_elem? bytes (i / 8))

-- The loop of `send_bitfield` from the piece `i` on.
unfoldable pub set_bits : ℕ → List Bool → Bytes → Option Bytes
set_bits i [] bytes = some bytes
set_bits i (false ∷ has_pieces) bytes = set_bits (i + 1) has_pieces bytes
set_bits i (true ∷ has_pieces) bytes = elim (set_bit bytes i) [
  | none ↦ none
  | some bytes_1 ↦ set_bits (i + 1) has_pieces bytes_1
]

-- The length is computed in `f64`, which is exact below 2 ^ 53.
unfoldable pub bitfield_bytes : List Bool → Option Bytes
unfolding set_bits
bitfield_bytes has_pieces = set_bits 0 has_pieces (replicate ((length has_pieces + 7) / 8) 0)

unfoldable pub send_bitfield : Env → Step
send_bitfield env c = do
  bytes ← or_panic (bitfield_bytes c.me.has_pieces)
  send_message env (bitfield bytes) c

abbrev pub set_has_piece : ℕ → Bool → PeerConnection → PeerConnection
set_has_piece i value c = record c { he = record c.he { has_pieces = set c.he.has_pieces i value } }

-- The loop of `process_message` over a bitfield: the rounds left, and the piece of the next round.
unfoldable pub read_bits : Env → Bytes → ℕ → ℕ → Step
read_bits env bytes zero i c = ok c
read_bits env bytes (suc rounds) i c = do
  value ← or_panic (read_bit bytes i)
  c_1 ← if value then queue_blocks env i (set_has_piece i value c) else ok (set_has_piece i value c)
  read_bits env bytes rounds (i + 1) c_1
