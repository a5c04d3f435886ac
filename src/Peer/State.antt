-- ===== src/Peer/State.antt =====
-- `PeerConnection` of bt/src/peer/peer_connection.rs, and what the other tasks answer to it.
use rust_torrent_client.Prelude.{
  ℕ, List, [], ◌∷◌, ◌++◌, Option, Bool, true, false, Bytes, if◌then◌else◌, Outcome, ok, err,
}
use rust_torrent_client.Ipc.{Message}
use rust_torrent_client.Stream.{Error, send_error}
use rust_torrent_client.Events.{ManagerEvent}
use rust_torrent_client.Peer.Queue.{RequestQueue, RequestMetadata}
use rust_torrent_client.Peer.Queue
use rust_torrent_client.Peer.ToRequest.{ToRequest}

pub record PeerMetadata : Type 0 where
  pub has_pieces : List Bool
  pub is_choked : Bool
  pub is_interested : Bool
  pub requests : RequestQueue

-- `PeerMetadata::new`
abbrev pub new : List Bool → PeerMetadata
new has_pieces = record {
  has_pieces = has_pieces;
  is_choked = true;
  is_interested = false;
  requests = Queue.new;
}

-- `sent` and `to_download` are what was put into the channels to the write loop and to the download
-- loop so far.
pub record PeerConnection : Type 0 where
  pub halt : Bool
  pub our_peer_id : Bytes
  pub info_hash : Bytes
  pub me : PeerMetadata
  pub he : PeerMetadata
  pub to_request : ToRequest
  pub upload_in_progress : Bool
  pub sent : List Message
  pub to_download : List ManagerEvent

-- What the other tasks do while one event is handled: whether they still receive, the answers of
-- the download loop (`none` if it drops the request), and the order of the keys of a hash map.
pub record Env : Type 0 where
  pub writer_open : Bool
  pub download_open : Bool
  pub incomplete_blocks : ℕ → Option (List (ℕ × ℕ))
  pub block_data : RequestMetadata → Option Bytes
  pub key_order : ToRequest → ℕ

abbrev pub Step : Type 0
Step = PeerConnection → Outcome Error PeerConnection

-- `writer_sender.send(message).await?`
unfoldable pub send_message : Env → Message → Step
send_message env m c =
    if env.writer_open then ok (record c { sent = c.sent ++ m ∷ [] }) else err send_error

-- `to_download.send(event).await?`
unfoldable pub send_download : Env → ManagerEvent → Step
send_download env e c =
    if env.download_open
    then ok (record c { to_download = c.to_download ++ e ∷ [] })
    else err send_error
