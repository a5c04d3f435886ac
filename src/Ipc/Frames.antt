-- ===== src/Ipc/Frames.antt =====
-- The read and write loops of bt/src/peer/peer_connection.rs, which cut the stream into messages.
use rust_torrent_client.Prelude.{
  ℕ, zero, suc, List, [], ◌∷◌, ◌++◌, Bytes, Option, none, Bool, true, false, ltb, if◌then◌else◌,
  Outcome, ok, err, panic, out_of_fuel, ◌>>=◌, or_panic,
}
use rust_torrent_client.Stream.{Error, read_n}
use rust_torrent_client.Ipc.{
  Message, keep_alive, piece, Ipc, block_uploaded, new, serialize, bytes_to_u32,
}

abbrev pub Read : Type 0 → Type 0
Read A = Outcome Error (A × Bytes)

-- `Message::new(&message[0], &message[1..])`
abbrev parse_message : Bytes → Option Message
parse_message [] = none
parse_message (id ∷ body) = new id body

-- One round of `conn_read_loop`.
unfoldable pub read_message : Bytes → Read Message
unfolding read_n
read_message stream = do
  (prefix, stream_1) ← read_n stream 4
  message_size ← or_panic (bytes_to_u32 prefix)
  if ltb 0 message_size
      then (do
        (frame, stream_2) ← read_n stream_1 message_size
        m ← or_panic (parse_message frame)
        ok (m, stream_2))
      else ok (keep_alive, stream_1)

-- The rounds of `conn_read_loop`: the messages that it passed on, and why it ended. The peer's task
-- is taken to receive all of them.
pub record ReadLoop : Type 0 where
  pub received : List Message
  pub ended : Outcome Error (Unit {0})

abbrev pub receive : Message → ReadLoop → ReadLoop
receive m r = record { received = m ∷ r.received; ended = r.ended }

unfoldable pub conn_read_loop : ℕ → Bytes → ReadLoop
conn_read_loop zero stream = record { received = []; ended = out_of_fuel }
conn_read_loop (suc fuel) stream = elim (read_message stream) [
  | ok (m, rest) ↦ receive m (conn_read_loop fuel rest)
  | err e ↦ record { received = []; ended = err e }
  | panic ↦ record { received = []; ended = panic }
  | out_of_fuel ↦ record { received = []; ended = out_of_fuel }
]

abbrev pub is_block_upload : Message → Bool
is_block_upload (piece index offset block) = true
is_block_upload _ = false

-- `conn_write_loop`: what it writes to the stream, and what it sends to the peer's task.
unfoldable pub conn_write_loop : List Message → Bytes × List Ipc
conn_write_loop [] = ([], [])
conn_write_loop (m ∷ messages) =
    let (stream, ipcs) = conn_write_loop messages in
    (serialize m ++ stream, if is_block_upload m then block_uploaded ∷ ipcs else ipcs)
