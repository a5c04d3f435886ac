-- ===== src/Tests/Messages.antt =====
-- The messages of bt/src/base/ipc.rs and the handshake, at concrete inputs.
use rust_torrent_client.Prelude.{
  ℕ, ◌*◌, ◌≤◌, ◌≡◌, ◌↔◌, ◌⊎◌, ◌<◌, refl, [], ◌∷◌, ◌++◌, none, some, ok, err, length, arith, Bytes,
  replicate, Bool, true, false, not, if◌then◌else◌, get_elem?, u32_mod,
}
use rust_torrent_client.Stream.{unexpected_eof, invalid_info_hash, connecting_to_self}
use rust_torrent_client.Ipc
use rust_torrent_client.Ipc.{
  have, request, piece, interested, serialize, bytes_to_u32, u32_to_bytes,
}
use rust_torrent_client.Ipc.Words.{word, bytes_to_u32-u32_to_bytes, u32_to_bytes-bytes_to_u32}
use rust_torrent_client.Ipc.Frames.{read_message, conn_read_loop, conn_write_loop}
use rust_torrent_client.Ipc.RoundTrip.{
  read_message-serialize, read_message-piece, conn_read_loop-conn_write_loop,
}
use rust_torrent_client.Ipc.Panics.{needed, new-none_iff}
use rust_torrent_client.Peer.Handshake.{bytes_eq, handshake_message, receive_handshake}
use rust_torrent_client.Peer.Handshake.Agree.{receive_handshake-handshake_message}
use rust_torrent_client.Peer.Bits.{bitfield_bytes, read_bit}
use rust_torrent_client.Peer.Bits.RoundTrip.{bitfield_bytes_lem}

serialize_test : serialize (have 258) ≡ 0 ∷ 0 ∷ 0 ∷ 5 ∷ 4 ∷ 0 ∷ 0 ∷ 1 ∷ 2 ∷ []
unfolding serialize Ipc.payload u32_to_bytes
serialize_test = refl

read_message-serialize_example :
    read_message (serialize (request 1 16_384 16_384) ++ 9 ∷ [])
    ≡ ok (request 1 16_384 16_384, 9 ∷ [])
read_message-serialize_example =
    read_message-serialize (request 1 16_384 16_384) (9 ∷ [])
      (omega arith, omega arith, omega arith)

read_message-piece_example :
    read_message (serialize (piece 1 0 (0 ∷ 0 ∷ 0 ∷ 5 ∷ 77 ∷ [])) ++ [])
    ≡ ok (request 1 0 (word 0 0 0 5), [])
read_message-piece_example =
    read_message-piece 1 0 0 0 0 5 (77 ∷ []) [] (omega arith) (omega arith)
      (omega arith, (omega arith, (omega arith, (omega arith, tt)))) (omega arith)

conn_read_loop-conn_write_loop_example :
    conn_read_loop 3 (conn_write_loop (interested ∷ have 4 ∷ [])).0
    ≡ record { received = interested ∷ have 4 ∷ []; ended = err unexpected_eof }
conn_read_loop-conn_write_loop_example =
    conn_read_loop-conn_write_loop (interested ∷ have 4 ∷ []) (tt, (omega arith, tt))

new-none_iff_example :
    (Ipc.new 4 (1 ∷ []) ≡ none) ↔ ((9 < 4) ⊎ (length {A = ℕ} (1 ∷ []) < needed 4))
new-none_iff_example = new-none_iff 4 (1 ∷ [])

bytes_to_u32-u32_to_bytes_example : bytes_to_u32 (u32_to_bytes 70_000 ++ 3 ∷ []) ≡ some 70_000
bytes_to_u32-u32_to_bytes_example = bytes_to_u32-u32_to_bytes 70_000 (3 ∷ []) (omega arith)

u32_to_bytes-bytes_to_u32_example : (u32_to_bytes 258 ≡ 0 ∷ 0 ∷ 1 ∷ 2 ∷ []) × (258 < u32_mod)
u32_to_bytes-bytes_to_u32_example =
    u32_to_bytes-bytes_to_u32 0 0 1 2 258 []
      (omega arith, (omega arith, (omega arith, (omega arith, tt)))) (unfold bytes_to_u32 in refl)

abbrev hash : Bytes
hash = replicate 20 7

abbrev our_id : Bytes
our_id = replicate 20 1

abbrev his_id : Bytes
his_id = replicate 20 2

receive_handshake-handshake_message_example :
    receive_handshake hash our_id (handshake_message hash his_id ++ 5 ∷ []) ≡ (
      if not (bytes_eq hash hash)
      then err invalid_info_hash
      else if bytes_eq his_id our_id
      then err connecting_to_self
      else ok (5 ∷ []))
receive_handshake-handshake_message_example =
    receive_handshake-handshake_message hash our_id hash his_id (5 ∷ []) refl refl

bitfield_bytes_lem_example :
    (bytes : Bytes) × (bitfield_bytes (true ∷ false ∷ true ∷ []) ≡ some bytes)
    × (length bytes ≡ 1)
    × ((i : ℕ) (h : Bool)
        → get_elem? (true ∷ false ∷ true ∷ []) i ≡ some h
        → read_bit bytes i ≡ some h)
    × ((i : ℕ) → 3 ≤ i → i < 8 * length bytes → read_bit bytes i ≡ some false)
bitfield_bytes_lem_example = bitfield_bytes_lem (true ∷ false ∷ true ∷ [])
