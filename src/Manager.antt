-- ===== src/Manager.antt =====
-- `Manager` of bt/src/base/manager.rs: the task that keeps the connections to the peers.
pub mod Peers
pub mod Broadcasts
pub mod Live
pub mod Valid
pub mod System
use rust_torrent_client.Prelude.{
  ℕ, zero, suc, ◌+◌, List, [], ◌∷◌, ◌++◌, Option, none, some, Bool, true, false, Bytes, any, ◌==◌,
  ltb, differ, not, if◌then◌else◌, length, set, Outcome, ok, err, panic, ◌>>=◌,
}
use rust_torrent_client.Stream.{Error, send_error}
use rust_torrent_client.Ipc.{Ipc}
use rust_torrent_client.Peer.Handshake.{bytes_eq}
use rust_torrent_client.Events.{
  Peer, ManagerEvent, continue, broadcast, connection, require_piece_length, file_finish, download,
  require_data, require_incomplete_blocks, require_have_pieces, tracker, TrackerMessage, peers,
}
use rust_torrent_client.Meta.{TorrentMetaInfo, info_hash, info_piece_length}

-- `peer_conn_loop` with what it is started with. The channel to a connection is a number, which
-- counts the channels.
pub record Connection : Type 0 where
  pub send_handshake_first : Bool
  pub our_peer_id : Bytes
  pub info_hash : Bytes
  pub peer : Peer
  pub channel : ℕ

-- `pieces` and `file_offsets` are never read. The map of the peers is in the order in which it is
-- gone through. The last six fields hold what the manager has done: the channels and connections it
-- has made, the messages it has sent on a channel, the events passed to the download task, the lists
-- of peers of which tasks that it spawned send connections, and the answers.
pub record Manager : Type 0 where
  pub our_peer_id : Bytes
  pub meta_info : TorrentMetaInfo
  pub file_paths : List Bytes
  pub peers : List (Peer × ℕ)
  pub peers_deque : List (Bool × Peer)
  pub channels : ℕ
  pub connections : List Connection
  pub sent : List (ℕ × Ipc)
  pub sent_to_download : List ManagerEvent
  pub spawned : List (List Peer)
  pub piece_lengths : List ℕ

-- Equality of `Peer`, of pairs, and the map of the peers.
unfoldable pub peer_eq : Peer → Peer → Bool
peer_eq p q = if bytes_eq p.ip q.ip then p.port == q.port else false

abbrev pub has_peer : Peer → List Peer → Bool
has_peer p ps = any (peer_eq p) ps

unfoldable pub keys : List (Peer × ℕ) → List Peer
keys [] = []
keys ((p, channel) ∷ map) = p ∷ keys map

unfoldable pub waiting : List (Bool × Peer) → List Peer
waiting [] = []
waiting ((first, p) ∷ deque) = p ∷ waiting deque

unfoldable pub remove : Peer → List (Peer × ℕ) → List (Peer × ℕ)
remove p [] = []
remove p ((q, channel) ∷ map) = if peer_eq p q then map else (q, channel) ∷ remove p map

abbrev pub pair_eq : Bool × Peer → Bool × Peer → Bool
pair_eq (b, p) (c, q) = if differ b c then false else peer_eq p q

-- What the other tasks do meanwhile: the channels whose receiver is there, whether the one who asks
-- for the length of a piece still waits, and whether the download task runs.
pub record Env : Type 0 where
  pub is_open : ℕ → Bool
  pub waits : Bool
  pub download_open : Bool

-- What a round of the loop of `manager_loop` takes: an event, or the end of a connection.
pub data Input : Type 0 where
  event : Env → ManagerEvent → Input
  disconnect : Peer → Input

-- The sends of a broadcast, with the keys of the channels that are closed.
unfoldable pub send_all : (ℕ → Bool) → Ipc → List (Peer × ℕ) → List (ℕ × Ipc) × List Peer
send_all is_open ipc [] = ([], [])
send_all is_open ipc ((p, channel) ∷ map) =
    let (sent, delete_keys) = send_all is_open ipc map in
    if is_open channel then ((channel, ipc) ∷ sent, delete_keys) else (sent, p ∷ delete_keys)

module _ (calculate_sha1 : Bytes → Bytes) where
  -- `connect`. The `assert!` panics if the peer is in the map, before the loop is started.
  unfoldable pub connect : Bool → Peer → Manager → Outcome Error Manager
  connect send_handshake_first peer m =
      if has_peer peer (keys m.peers)
      then panic
      else ok (record m {
        peers = m.peers ++ (peer, m.channels) ∷ [];
        channels = m.channels + 1;
        connections =
            m.connections
            ++ record {
              send_handshake_first = send_handshake_first;
              our_peer_id = m.our_peer_id;
              info_hash = info_hash calculate_sha1 m.meta_info;
              peer = peer;
              channel = m.channels;
            }
              ∷ [];
      })

  -- The body of the loop over `delete_keys`.
  unfoldable pub replace : Peer → Manager → Outcome Error Manager
  replace p m = elim m.peers_deque [
    | [] ↦ ok (record m { peers = remove p m.peers })
    | (send_handshake_first, peer) ∷ deque ↦
        connect send_handshake_first peer
          (record m { peers = remove p m.peers; peers_deque = deque })
  ]

  unfoldable pub replace_all : List Peer → Manager → Outcome Error Manager
  replace_all [] m = ok m
  replace_all (p ∷ delete_keys) m = do m_1 ← replace p m; replace_all delete_keys m_1

  -- The arms of `process_event`.
  unfoldable pub broadcast_event : Env → Ipc → Manager → Outcome Error Manager
  broadcast_event env ipc m =
      let (sent, delete_keys) = send_all env.is_open ipc m.peers in
      replace_all delete_keys (record m { sent = m.sent ++ sent })

  unfoldable pub connection_event : Bool → Peer → Manager → Outcome Error Manager
  connection_event send_handshake_first peer m =
      if has_peer peer (keys m.peers)
      then ok m
      else if any (pair_eq (send_handshake_first, peer)) m.peers_deque
      then ok m
      else if ltb (length m.peers) 30
      then connect send_handshake_first peer m
      else ok (record m { peers_deque = m.peers_deque ++ (send_handshake_first, peer) ∷ [] })

  unfoldable pub forward : Env → ManagerEvent → Manager → Outcome Error Manager
  forward env e m =
      if env.download_open
      then ok (record m { sent_to_download = m.sent_to_download ++ e ∷ [] })
      else err send_error

  unfoldable pub process_event : Env → ManagerEvent → Manager → Outcome Error Manager
  process_event env continue m = ok m
  process_event env (broadcast ipc) m = broadcast_event env ipc m
  process_event env (connection send_handshake_first peer) m =
      connection_event send_handshake_first peer m
  process_event env require_piece_length m =
      if env.waits
      then ok
          (record m { piece_lengths = m.piece_lengths ++ info_piece_length m.meta_info.info ∷ [] })
      else panic
  process_event env (file_finish file_index file_path) m =
      if ltb file_index (length m.file_paths)
      then ok (record m { file_paths = set m.file_paths file_index file_path })
      else panic
  process_event env (tracker (TrackerMessage.peers ps)) m =
      ok (record m { spawned = m.spawned ++ ps ∷ [] })
  process_event env e m = forward env e m

  -- A round of the loop of `manager_loop`.
  unfoldable pub turn : Input → Manager → Outcome Error Manager
  turn (event env e) m = process_event env e m
  turn (disconnect peer) m = ok (record m { peers = remove peer m.peers })

  -- `manager_loop`, until the channel of the events is closed.
  unfoldable pub manager_loop : List Input → Manager → Outcome Error Manager
  manager_loop [] m = ok m
  manager_loop (input ∷ inputs) m = do m_1 ← turn input m; manager_loop inputs m_1
