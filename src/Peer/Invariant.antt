-- ===== src/Peer/Invariant.antt =====
-- What holds of a `PeerConnection` between two events: no block is requested twice, a block that is
-- requested does not wait to be requested, and at most ten requests are out.
pub mod Parts
pub mod Requests
pub mod Answers
use rust_torrent_client.Prelude.{ℕ, ◌≤◌, ◌≡◌, true, false}
use rust_torrent_client.Peer.Queue.{RequestQueue, has, len}
use rust_torrent_client.Peer.Queue.Laws.{Unique}
use rust_torrent_client.Peer.ToRequest.{ToRequest, contains_key}
use rust_torrent_client.Peer.ToRequest.Laws.{Distinct}
use rust_torrent_client.Peer.State.{PeerConnection}
use rust_torrent_client.Peer.Actions.{max_concurrent_requests}

-- Of the requests to the peer, the requests of the peer, and the blocks to request.
pub record Valid (mine his : RequestQueue) (m : ToRequest) : Type 0 where
  pub my_requests : Unique mine.requests
  pub his_requests : Unique his.requests
  pub keys : Distinct m
  pub apart : (p b : ℕ) → contains_key p b m ≡ true → has mine p b ≡ false
  pub window : len mine ≤ max_concurrent_requests

abbrev pub IsValid : PeerConnection → Type 0
IsValid c = Valid c.me.requests c.he.requests c.to_request
