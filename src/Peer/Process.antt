-- ===== src/Peer/Process.antt =====
-- `process_message` and `peer_conn_loop` of bt/src/peer/peer_connection.rs.
use rust_torrent_client.Prelude.{
  ℕ, ◌/◌, List, [], ◌∷◌, Option, none, some, Bool, true, false, ltb, if◌then◌else◌, length, set,
  replicate, Bytes, Outcome, ok, err, panic, ◌>>=◌,
}
use rust_torrent_client.Ipc.{
  Message, keep_alive, choke, un_choke, interested, not_interested, have, bitfield, request, piece,
  cancel, port, Ipc, block_completed, piece_completed, download_completed, message, block_uploaded,
}
use rust_torrent_client.Stream.{Error, unknown_request_type}
use rust_torrent_client.Events.{download}
use rust_torrent_client.Peer.Queue
use rust_torrent_client.Peer.Queue.{RequestMetadata}
use rust_torrent_client.Peer.ToRequest
use rust_torrent_client.Peer.State.{
  PeerMetadata, PeerConnection, Env, Step, send_message, send_download,
}
use rust_torrent_client.Peer.Actions.{
  block_size, set_my_requests, set_his_requests, request_more_blocks, upload_next_block,
  queue_blocks, update_my_interested_status,
}
use rust_torrent_client.Peer.State
use rust_torrent_client.Peer.Bits.{read_bits, send_bitfield}
use rust_torrent_client.Peer.Handshake.{receive_handshake}

abbrev pub set_me_choked : Bool → PeerConnection → PeerConnection
set_me_choked b c = record c { me = record c.me { is_choked = b } }

abbrev pub set_he_choked : Bool → PeerConnection → PeerConnection
set_he_choked b c = record c { he = record c.he { is_choked = b } }

abbrev pub set_he_interested : Bool → PeerConnection → PeerConnection
set_he_interested b c = record c { he = record c.he { is_interested = b } }

-- `has_pieces[index] = true`, which panics out of bounds.
abbrev pub mark_his_piece : ℕ → Step
mark_his_piece i c =
    if ltb i (length c.he.has_pieces)
    then ok (record c { he = record c.he { has_pieces = set c.he.has_pieces i true } })
    else panic

abbrev pub mark_my_piece : ℕ → Step
mark_my_piece i c =
    if ltb i (length c.me.has_pieces)
    then ok (record c { me = record c.me { has_pieces = set c.me.has_pieces i true } })
    else panic

unfoldable pub process_message : Env → Message → Step
process_message env keep_alive c = ok c
process_message env choke c = ok (set_me_choked true c)
process_message env un_choke c =
    if c.me.is_choked then request_more_blocks env (set_me_choked false c) else ok c
process_message env interested c =
    if c.he.is_choked
    then (do
      c_1 ← send_message env un_choke (set_he_choked false (set_he_interested true c))
      upload_next_block env c_1)
    else ok (set_he_interested true c)
process_message env not_interested c = ok (set_he_interested false c)
process_message env (have have_index) c = do
  c_1 ← mark_his_piece have_index c
  c_2 ← queue_blocks env have_index c_1
  c_3 ← update_my_interested_status env c_2
  request_more_blocks env c_3
process_message env (bitfield bytes) c = do
  c_1 ← read_bits env bytes (length c.he.has_pieces) 0 c
  c_2 ← update_my_interested_status env c_1
  request_more_blocks env c_2
process_message env (request piece_index offset length) c =
    let (q, _) = Queue.add c.he.requests piece_index (offset / block_size) offset length in
    upload_next_block env (set_his_requests q c)
process_message env (piece piece_index offset block) c = do
  c_1 ←
      send_download env (download (piece piece_index offset block))
        (set_my_requests (Queue.remove c.me.requests piece_index (offset / block_size)).0 c)
  c_2 ← update_my_interested_status env c_1
  request_more_blocks env c_2
process_message env (cancel piece_index offset _) c =
    ok (set_his_requests (Queue.remove c.he.requests piece_index (offset / block_size)).0 c)
process_message env port c = err unknown_request_type

unfoldable pub send_cancel : Env → Option RequestMetadata → Step
send_cancel env none c = ok c
send_cancel env (some r) c = send_message env (cancel r.piece_index r.offset r.block_length) c

-- The arm for `IPC::BlockCompleted`: a request for the block that is still out is cancelled.
unfoldable pub cancel_block : Env → ℕ → ℕ → Step
cancel_block env piece_index block_index c =
    let (q, removed) = Queue.remove c.me.requests piece_index block_index in
    send_cancel env removed (
      set_my_requests q
        (record c { to_request = ToRequest.remove piece_index block_index c.to_request }))

-- One round of `peer_conn_loop`.
unfoldable pub handle_ipc : Env → Ipc → Step
handle_ipc env (message m) c = process_message env m c
handle_ipc env (block_completed piece_index block_index) c =
    cancel_block env piece_index block_index c
handle_ipc env (piece_completed piece_index) c = do
  c_1 ← mark_my_piece piece_index c
  c_2 ← update_my_interested_status env c_1
  send_message env (have piece_index) c_2
handle_ipc env download_completed c = update_my_interested_status env c
handle_ipc env block_uploaded c = upload_next_block env (record c { upload_in_progress = false })

-- What `select!` of `peer_conn_loop` yields: the read loop is gone, the manager is gone, or an IPC.
pub data LoopEvent : Type 0 where
  shutdown ipcs_closed : LoopEvent
  ipc : Env → Ipc → LoopEvent

-- The loop over the events that arrive. With no event left it waits.
unfoldable pub peer_conn_loop : List LoopEvent → Step
peer_conn_loop [] c = ok c
peer_conn_loop (shutdown ∷ events) c = ok c
peer_conn_loop (ipcs_closed ∷ events) c = ok (record c { halt = true })
peer_conn_loop (ipc env i ∷ events) c =
    if c.halt then ok c else do c_1 ← handle_ipc env i c; peer_conn_loop events c_1

-- The connection as `peer_conn_loop` makes it, before the handshake.
abbrev pub connection : Bytes → Bytes → List Bool → PeerConnection
connection our_peer_id info_hash have_pieces = record {
  halt = false;
  our_peer_id = our_peer_id;
  info_hash = info_hash;
  me = State.new have_pieces;
  he = State.new (replicate (length have_pieces) false);
  to_request = [];
  upload_in_progress = false;
  sent = [];
  to_download = [];
}

-- `peer_conn_loop` from the bytes that the peer sends first: its handshake is read, our bitfield is
-- sent, and the events are handled. What we write to the socket for the handshake is
-- `handshake_message`, before or after this reading.
unfoldable pub run_peer :
    Env → Bytes → Bytes → List Bool → Bytes → List LoopEvent → Outcome Error PeerConnection
run_peer env our_peer_id info_hash have_pieces stream events = do
  _ ← receive_handshake info_hash our_peer_id stream
  c ← send_bitfield env (connection our_peer_id info_hash have_pieces)
  peer_conn_loop events c
