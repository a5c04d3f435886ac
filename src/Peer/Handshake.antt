-- ===== src/Peer/Handshake.antt =====
-- The handshake of bt/src/peer/peer_connection.rs.
pub mod Agree
use rust_torrent_client.Prelude.{
  ℕ, List, [], ◌∷◌, ◌++◌, Bytes, Bool, true, false, not, u8_mod, ◌%◌, ◌==◌, ltb, if◌then◌else◌,
  length, take, drop, replicate, Option, Outcome, ok, err, panic, or_panic, get_elem?, ◌>>=◌,
}
use rust_torrent_client.Stream.{Error, read_n, invalid_info_hash, connecting_to_self}

-- "BitTorrent protocol"
abbrev pub protocol : Bytes
protocol =
    66 ∷ 105 ∷ 116 ∷ 84 ∷ 111 ∷ 114 ∷ 114 ∷ 101 ∷ 110 ∷ 116 ∷ 32 ∷ 112 ∷ 114 ∷ 111 ∷ 116 ∷ 111 ∷ 99
    ∷ 111 ∷ 108 ∷ []

-- `==` on byte strings.
unfoldable pub bytes_eq : Bytes → Bytes → Bool
bytes_eq [] [] = true
bytes_eq (x ∷ xs) (y ∷ ys) = if x == y then bytes_eq xs ys else false
bytes_eq _ _ = false

-- `send_handshake`: the bytes that are written.
unfoldable pub handshake_message : Bytes → Bytes → Bytes
handshake_message info_hash our_peer_id =
    length protocol % u8_mod ∷ (protocol ++ (replicate 8 0 ++ (info_hash ++ our_peer_id)))

-- `receive_handshake`: what is left of the stream.
unfoldable pub receive_handshake : Bytes → Bytes → Bytes → Outcome Error Bytes
receive_handshake info_hash our_peer_id stream = do
  (pstrlen, stream_1) ← read_n stream 1
  n ← or_panic (get_elem? pstrlen 0)
  (_, stream_2) ← read_n stream_1 n
  (_, stream_3) ← read_n stream_2 8
  (his_info_hash, stream_4) ← read_n stream_3 20
  (peer_id, stream_5) ← read_n stream_4 20
  if not (bytes_eq his_info_hash info_hash)
      then err invalid_info_hash
      else if bytes_eq peer_id our_peer_id
      then err connecting_to_self
      else ok stream_5
