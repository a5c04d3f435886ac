-- ===== src/Tests/Connection.antt =====
-- The connection of bt/src/peer/peer_connection.rs at a concrete run.
use rust_torrent_client.Prelude.{
  suc, ◌+◌, ◌≤◌, ◌≡◌, refl, List, [], ◌∷◌, ◌++◌, ◌⊎◌, none, some, arith, Bytes, replicate, Bool,
  true, false, not, ◌||◌, if◌then◌else◌, Ensures,
}
use rust_torrent_client.Ipc.{
  Ipc, have, un_choke, interested, request, piece, message, block_uploaded, block_completed,
}
use rust_torrent_client.Peer.Queue
use rust_torrent_client.Peer.Queue.{
  RequestQueue, RequestMetadata, has, add, remove, pop, len, matches,
}
use rust_torrent_client.Peer.Queue.Laws.{has-add, has-remove, remove_result, pop-add, same}
use rust_torrent_client.Peer.ToRequest.{contains_key}
use rust_torrent_client.Peer.State.{PeerConnection, Env}
use rust_torrent_client.Peer.Actions.{request_more_blocks}
use rust_torrent_client.Peer.Process.{
  LoopEvent, ipc, shutdown, connection, peer_conn_loop, run_peer,
}
use rust_torrent_client.Peer.Handshake.{handshake_message}
use rust_torrent_client.Peer.Protocol.{view}
use rust_torrent_client.Peer.Protocol.Rules.{Trace, Told, bit, pieces_sent}
use rust_torrent_client.Peer.Invariant.{IsValid}
use rust_torrent_client.Peer.Invariant.Requests.{Requested, Filled, request_more_blocks-Ensures}
use rust_torrent_client.Peer.Refinement.{
  ipcs, reports, peer_conn_loop-IsValid, peer_conn_loop-Trace, peer_conn_loop-Told,
  peer_conn_loop-Uploads,
}
use rust_torrent_client.Peer.Refinement.Start.{connection-IsValid, run_peer-IsSafe}

abbrev hash : Bytes
hash = replicate 20 7

abbrev our_id : Bytes
our_id = replicate 20 1

abbrev have_pieces : List Bool
have_pieces = false ∷ true ∷ []

abbrev start : PeerConnection
start = connection our_id hash have_pieces

abbrev env : Env
env = record {
  writer_open = true;
  download_open = true;
  incomplete_blocks = λ _. some ((0, 16_384) ∷ (1, 9) ∷ []);
  block_data = λ _. some (1 ∷ 2 ∷ []);
  key_order = λ _. 0;
}

-- The peer lets us ask, has a piece that we lack, sends a block of it, and asks for one of ours.
abbrev events : List LoopEvent
events =
    ipc env (message un_choke)
    ∷ ipc env (message (have 0))
    ∷ ipc env (message (piece 0 0 (3 ∷ [])))
    ∷ ipc env (block_completed 0 1)
    ∷ ipc env (message interested)
    ∷ ipc env (message (request 1 0 2))
    ∷ ipc env block_uploaded
    ∷ shutdown
    ∷ []

peer_conn_loop-Trace_example :
    Ensures
      (λ c'.
        (heard : List Ipc) × (unheard : List Ipc) × (ipcs events ≡ heard ++ unheard)
        × ((unheard ≡ []) ⊎ (c'.halt ≡ true))
        × Trace (view start) heard (view c'))
      (peer_conn_loop events start)
peer_conn_loop-Trace_example =
    peer_conn_loop-Trace events start (connection-IsValid our_id hash have_pieces)

peer_conn_loop-IsValid_example : Ensures IsValid (peer_conn_loop events start)
peer_conn_loop-IsValid_example =
    peer_conn_loop-IsValid events start (connection-IsValid our_id hash have_pieces)

peer_conn_loop-Told_example : Ensures (λ c'. Told (view c')) (peer_conn_loop events start)
peer_conn_loop-Told_example =
    peer_conn_loop-Told events start (connection-IsValid our_id hash have_pieces)
      (record { interest = refl; choked = refl })

peer_conn_loop-Uploads_example :
    Ensures
      (λ c'.
        pieces_sent c'.sent + bit start.upload_in_progress
        ≤ pieces_sent start.sent + reports events + bit c'.upload_in_progress)
      (peer_conn_loop events start)
peer_conn_loop-Uploads_example =
    peer_conn_loop-Uploads events start (connection-IsValid our_id hash have_pieces)

run_peer-IsSafe_example :
    Ensures
      (λ c.
        IsValid c
        × Told (view c)
        × (pieces_sent c.sent ≤ reports events + bit c.upload_in_progress))
      (run_peer env our_id hash have_pieces (handshake_message hash (replicate 20 2)) events)
run_peer-IsSafe_example =
    run_peer-IsSafe env our_id hash have_pieces (handshake_message hash (replicate 20 2)) events

-- A connection with one block to ask for.
abbrev waiting : PeerConnection
waiting = record start {
  me = record start.me { is_choked = false; is_interested = true };
  to_request =
      record {
        key_piece = 0;
        key_block = 1;
        value = record { piece_index = 0; block_index = 1; block_length = 9 };
      }
      ∷ [];
}

waiting-IsValid : IsValid waiting
unfolding contains_key len has Queue.find_position
waiting-IsValid = record {
  my_requests = tt;
  his_requests = tt;
  keys = ((refl, refl), refl, tt);
  apart = λ p b h. refl;
  window = omega arith;
}

request_more_blocks-Ensures_example :
    Ensures
      (λ c'.
        Requested waiting c'
        × (waiting.me.is_choked || not waiting.me.is_interested ≡ true → c' ≡ waiting)
        × (waiting.me.is_choked || not waiting.me.is_interested ≡ false → Filled c'))
      (request_more_blocks env waiting)
request_more_blocks-Ensures_example = request_more_blocks-Ensures env waiting waiting-IsValid

-- A queue that holds one request.
abbrev queue : RequestQueue
queue = record {
  requests = record { piece_index = 1; block_index = 2; offset = 32_768; block_length = 9 } ∷ [];
}

has-add_example :
    (has (add queue 3 0 0 5).0 1 2 ≡ (if same 3 0 1 2 then true else has queue 1 2))
    × ((add queue 3 0 0 5).1 ≡ not (has queue 3 0))
has-add_example = has-add queue 3 0 1 2 0 5

has-remove_example : has (remove queue 1 2).0 1 2 ≡ (if same 1 2 1 2 then false else has queue 1 2)
has-remove_example = has-remove queue 1 2 1 2 (refl, tt)

remove_result_example :
    (has queue 1 2 ≡ true
      → (r : RequestMetadata) × ((remove queue 1 2).1 ≡ some r)
        × (matches r 1 2 ≡ true)
        × (len queue ≡ suc (len (remove queue 1 2).0)))
    × (has queue 1 2 ≡ false → remove queue 1 2 ≡ (queue, none))
remove_result_example = remove_result queue 1 2

queue-fresh : has queue 3 0 ≡ false
unfolding has Queue.find_position matches
queue-fresh = refl

queue-first :
    (pop queue).1
    ≡ some (record { piece_index = 1; block_index = 2; offset = 32_768; block_length = 9 })
unfolding pop Queue.pop_front
queue-first = refl

pop-add_example : pop (add queue 3 0 0 5).0 ≡ (
  (add (pop queue).0 3 0 0 5).0,
  some (record { piece_index = 1; block_index = 2; offset = 32_768; block_length = 9 }),
)
pop-add_example =
    pop-add queue 3 0 0 5
      (record { piece_index = 1; block_index = 2; offset = 32_768; block_length = 9 }) queue-fresh
      queue-first
