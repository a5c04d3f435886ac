-- ===== src/Peer/Actions.antt =====
-- The methods of `PeerConnection` in bt/src/peer/peer_connection.rs.
use rust_torrent_client.Prelude.{
  ℕ, zero, suc, ◌*◌, List, [], ◌∷◌, Option, none, some, Bool, true, not, ◌||◌, u32_mod, checked,
  ltb, differ, ◌==◌, if◌then◌else◌, length, Outcome, ok, err, out_of_fuel, ◌>>=◌,
}
use rust_torrent_client.Ipc.{interested, not_interested, request, piece}
use rust_torrent_client.Stream.{Error, canceled}
use rust_torrent_client.Events.{require_data, require_incomplete_blocks}
use rust_torrent_client.Peer.Queue.{RequestQueue, RequestMetadata}
use rust_torrent_client.Peer.Queue
use rust_torrent_client.Peer.ToRequest.{ToRequest, Entry, Block}
use rust_torrent_client.Peer.ToRequest
use rust_torrent_client.Peer.State.{PeerConnection, Env, Step, send_message, send_download}

abbrev pub block_size : ℕ
block_size = 16_384

abbrev pub max_concurrent_requests : ℕ
max_concurrent_requests = 10

-- `receiver.await?` on a oneshot channel.
abbrev pub or_canceled {ℓ} : {A : Type ℓ} → Option A → Outcome Error A
or_canceled none = err canceled
or_canceled (some a) = ok a

abbrev pub set_my_requests : RequestQueue → PeerConnection → PeerConnection
set_my_requests q c = record c { me = record c.me { requests = q } }

abbrev pub set_his_requests : RequestQueue → PeerConnection → PeerConnection
set_his_requests q c = record c { he = record c.he { requests = q } }

-- The part of the loop body of `request_more_blocks` that adds a request and sends it.
unfoldable pub request_block : Env → Block → Step
request_block env v c = do
  offset ← checked u32_mod (v.block_index * block_size)
  let (q, added) = Queue.add c.me.requests v.piece_index v.block_index offset v.block_length
  if added
      then send_message env (request v.piece_index offset v.block_length) (set_my_requests q c)
      else ok (set_my_requests q c)

-- The round for the first key of the map; `more` is the rest of the loop.
unfoldable pub request_next : Env → Step → Option Entry → Step
request_next env more none c = ok c
request_next env more (some e) c = do
  c_1 ←
      request_block env e.value
        (record c { to_request = ToRequest.remove e.key_piece e.key_block c.to_request })
  more c_1

-- The loop of `request_more_blocks`, with fuel for its rounds.
unfoldable pub request_loop : ℕ → Env → Step
request_loop zero env c = out_of_fuel
request_loop (suc fuel) env c =
    let round =
      request_next env (request_loop fuel env) (ToRequest.first env.key_order c.to_request) c in
    if ltb (Queue.len c.me.requests) max_concurrent_requests then round else ok c

unfoldable pub request_more_blocks : Env → Step
request_more_blocks env c =
    if c.me.is_choked || not c.me.is_interested || length c.to_request == 0
    then ok c
    else request_loop (suc (length c.to_request)) env c

-- The arms of `upload_next_block` for the request that waits longest.
unfoldable pub upload_block : Env → Option RequestMetadata → Step
upload_block env none c = ok c
upload_block env (some r) c = do
  c_1 ← send_download env (require_data r) c
  block ← or_canceled (env.block_data r)
  send_message env (piece r.piece_index r.offset block) (record c_1 { upload_in_progress = true })

unfoldable pub upload_next_block : Env → Step
upload_next_block env c =
    if c.upload_in_progress || c.he.is_choked || not c.he.is_interested
    then ok c
    else let (q, next) = Queue.pop c.he.requests in upload_block env next (set_his_requests q c)

-- The loop body of `queue_blocks`, and the loop over the blocks that are not complete.
unfoldable pub queue_one : ℕ → ℕ → ℕ → PeerConnection → PeerConnection
queue_one piece_index block_index block_length c =
    if not (Queue.has c.me.requests piece_index block_index)
    then record c {
      to_request =
          ToRequest.insert piece_index block_index
            (record {
              piece_index = piece_index;
              block_index = block_index;
              block_length = block_length;
            })
            c.to_request;
    }
    else c

unfoldable pub queue_all : ℕ → List (ℕ × ℕ) → PeerConnection → PeerConnection
queue_all piece_index [] c = c
queue_all piece_index ((block_index, block_length) ∷ blocks) c =
    queue_all piece_index blocks (queue_one piece_index block_index block_length c)

unfoldable pub queue_blocks : Env → ℕ → Step
queue_blocks env piece_index c = do
  c_1 ← send_download env (require_incomplete_blocks piece_index) c
  blocks ← or_canceled (env.incomplete_blocks piece_index)
  ok (queue_all piece_index blocks c_1)

abbrev pub am_interested : PeerConnection → Bool
am_interested c = ltb 0 (Queue.len c.me.requests) || ltb 0 (length c.to_request)

unfoldable pub update_my_interested_status : Env → Step
update_my_interested_status env c =
    if differ c.me.is_interested (am_interested c)
    then send_message env (if am_interested c then interested else not_interested)
        (record c { me = record c.me { is_interested = am_interested c } })
    else ok c
