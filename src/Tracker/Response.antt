-- ===== src/Tracker/Response.antt =====
-- `TrackerResponse` of bt/src/tracker/tracker_supervisor.rs and `from_bytes` and `from_value` for
-- `Peer` of bt/src/peer/peer_connection.rs.
pub mod Compact
use rust_torrent_client.Prelude.{
  ℕ, zero, suc, ◌+◌, ◌*◌, List, [], ◌∷◌, ◌++◌, Option, Bytes, ◌==◌, if◌then◌else◌, length, take,
  drop, get_elem?, Outcome, ok, err, out_of_fuel, ◌>>=◌, or_panic, checked, u32_mod,
}
use rust_torrent_client.Events.{Peer}
use rust_torrent_client.Bencode.Decimal.{print}
use rust_torrent_client.Bencode.Encode.{Value, bytes, list}
use rust_torrent_client.Bencode.Decode.{DecodeError, extraneous_data, decode}
use rust_torrent_client.Bencode.Fields.{
  FromValue, get_value, get_field, get_option_field, string_from_value, vec_from_value,
  unsigned_from_value,
}

abbrev pub u16_mod : ℕ
u16_mod = 65_536

-- The text of an `Ipv4Addr`.
abbrev pub dotted : ℕ → ℕ → ℕ → ℕ → Bytes
dotted a b c d = print a ++ (46 ∷ (print b ++ (46 ∷ (print c ++ (46 ∷ print d)))))

-- `Peer::from_bytes`
unfoldable pub from_bytes : Bytes → Outcome DecodeError Peer
from_bytes v = do
  a ← or_panic (get_elem? v 0)
  b ← or_panic (get_elem? v 1)
  c ← or_panic (get_elem? v 2)
  d ← or_panic (get_elem? v 3)
  high ← or_panic (get_elem? v 4)
  high_part ← checked u16_mod (high * 256)
  low ← or_panic (get_elem? v 5)
  port ← checked u16_mod (high_part + low)
  ok (record { ip = dotted a b c d; port = port })

-- `chunks(6)` and `from_bytes` on each, with fuel for the chunks.
unfoldable pub from_chunks : ℕ → Bytes → Outcome DecodeError (List Peer)
from_chunks zero input = out_of_fuel
from_chunks (suc fuel) input =
    let more = (do
      peer ← from_bytes (take 6 input)
      peers ← from_chunks fuel (drop 6 input)
      ok (peer ∷ peers)) in
    if length input == 0 then ok [] else more

unfoldable pub compact_peers : Bytes → Outcome DecodeError (List Peer)
compact_peers input = from_chunks (suc (length input)) input

-- "ip", "port", "peers", "interval", "min interval", "complete" and "incomplete"
abbrev pub ip_key : Bytes
ip_key = 105 ∷ 112 ∷ []

abbrev pub port_key : Bytes
port_key = 112 ∷ 111 ∷ 114 ∷ 116 ∷ []

abbrev pub peers_key : Bytes
peers_key = 112 ∷ 101 ∷ 101 ∷ 114 ∷ 115 ∷ []

abbrev pub interval_key : Bytes
interval_key = 105 ∷ 110 ∷ 116 ∷ 101 ∷ 114 ∷ 118 ∷ 97 ∷ 108 ∷ []

abbrev pub min_interval_key : Bytes
min_interval_key = 109 ∷ 105 ∷ 110 ∷ 32 ∷ interval_key

abbrev pub complete_key : Bytes
complete_key = 99 ∷ 111 ∷ 109 ∷ 112 ∷ 108 ∷ 101 ∷ 116 ∷ 101 ∷ []

abbrev pub incomplete_key : Bytes
incomplete_key = 105 ∷ 110 ∷ complete_key

-- `Peer::from_value`
unfoldable pub peer_from_value : FromValue Peer
peer_from_value v = do
  ip ← get_field string_from_value ip_key v
  port ← get_field (unsigned_from_value u16_mod) port_key v
  ok (record { ip = ip; port = port })

pub record TrackerResponse : Type 0 where
  pub interval : ℕ
  pub min_interval : Option ℕ
  pub complete : ℕ
  pub incomplete : ℕ
  pub peers : List Peer

-- The arms on the value of the peers.
unfoldable pub peers_from_value : FromValue (List Peer)
peers_from_value (list values) = vec_from_value peer_from_value (list values)
peers_from_value (bytes b) = compact_peers b
peers_from_value _ = err extraneous_data

-- `TrackerResponse::from_value`
unfoldable pub response_from_value : FromValue TrackerResponse
response_from_value v = do
  peers_value ← get_value peers_key v
  peers ← peers_from_value peers_value
  interval ← get_field (unsigned_from_value u32_mod) interval_key v
  min_interval ← get_option_field (unsigned_from_value u32_mod) min_interval_key v
  complete ← get_field (unsigned_from_value u32_mod) complete_key v
  incomplete ← get_field (unsigned_from_value u32_mod) incomplete_key v
  ok (record {
    interval = interval;
    min_interval = min_interval;
    complete = complete;
    incomplete = incomplete;
    peers = peers;
  })

-- `TrackerResponse::parse`
unfoldable pub parse_response : Bytes → Outcome DecodeError TrackerResponse
parse_response input = do (v, rest) ← decode (suc (length input)) input; response_from_value v
