-- ===== src/Events.antt =====
-- What the tasks of the client send one another: `ManagerEvent` of bt/src/base/manager.rs and
-- `Peer` of bt/src/peer/peer_connection.rs.
use rust_torrent_client.Prelude.{ℕ, Bool, List, Bytes}
use rust_torrent_client.Ipc.{Message, Ipc}
use rust_torrent_client.Peer.Queue.{RequestMetadata}

pub record Peer : Type 0 where
  pub ip : Bytes
  pub port : ℕ

pub data TrackerMessage : Type 0 where
  peers : List Peer → TrackerMessage

-- The sender of the answer that four of the events carry is left out: the answer is what the
-- handler of the event returns.
pub data ManagerEvent : Type 0 where
  continue : ManagerEvent
  broadcast : Ipc → ManagerEvent
  connection : Bool → Peer → ManagerEvent
  require_piece_length : ManagerEvent
  file_finish : ℕ → Bytes → ManagerEvent
  download : Message → ManagerEvent
  require_data : RequestMetadata → ManagerEvent
  require_incomplete_blocks : ℕ → ManagerEvent
  require_have_pieces : ManagerEvent
  tracker : TrackerMessage → ManagerEvent
