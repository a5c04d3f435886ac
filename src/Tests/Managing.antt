-- ===== src/Tests/Managing.antt =====
-- The manager of bt/src/base/manager.rs at concrete inputs.
use rust_torrent_client.Prelude.{
  ℕ, ◌≡◌, refl, List, [], ◌∷◌, ◌++◌, true, false, Bytes, length, ok, ◌==◌, not, Runs,
}
use rust_torrent_client.Peer.Handshake.{bytes_eq}
use rust_torrent_client.Ipc.{Ipc}
use rust_torrent_client.Events.{Peer, ManagerEvent, connection, tracker, broadcast, TrackerMessage}
use rust_torrent_client.Manager.{
  Manager, Env, event, disconnect, keys, waiting, peer_eq, remove, turn, process_event,
  connection_event, connect, broadcast_event, manager_loop, send_all, replace_all, replace,
}
use rust_torrent_client.Manager.Broadcasts.{
  live, closed, deliveries, replaced, broadcast_event-replaced, connection_of,
}
use rust_torrent_client.Manager.Peers.{Distinct}
use rust_torrent_client.Manager.Valid.{IsValid}
use rust_torrent_client.Manager.System.{
  System, sends, connects, takes, Reaches, begin, next, Reaches-IsValid,
}
use rust_torrent_client.Tests.Metadata.{sample}

abbrev host : ℕ → Peer
host n = record { ip = n ∷ []; port = 6881 }

abbrev sha : Bytes → Bytes
sha input = []

abbrev pub idle : Manager
idle = record {
  our_peer_id = [];
  meta_info = sample;
  file_paths = (97 ∷ []) ∷ [];
  peers = [];
  peers_deque = [];
  channels = 0;
  connections = [];
  sent = [];
  sent_to_download = [];
  spawned = [];
  piece_lengths = [];
}

-- Three connected peers, the second of which is gone, and two that wait.
abbrev full : Manager
full = record idle {
  peers = (host 1, 0) ∷ (host 2, 1) ∷ (host 3, 2) ∷ [];
  peers_deque = (true, host 4) ∷ (true, host 5) ∷ [];
  channels = 3;
}

abbrev env : Env
env = record { is_open = λ channel. not (channel == 1); waits = true; download_open = true }

full-Distinct : Distinct (keys full.peers ++ waiting full.peers_deque)
unfolding keys waiting peer_eq bytes_eq
full-Distinct = (refl, (refl, (refl, (refl, (refl, tt)))))

broadcast_event-replaced_example :
    broadcast_event sha env (Ipc.piece_completed 7) full
    ≡ ok (
        replaced sha
          (live env.is_open full.peers)
          (length (closed env.is_open full.peers))
          (record full {
            sent = [] ++ deliveries (Ipc.piece_completed 7) (live env.is_open full.peers);
          }))
broadcast_event-replaced_example =
    broadcast_event-replaced sha env (Ipc.piece_completed 7) full full-Distinct

-- The start of the program: a tracker has two peers, and the manager connects to the first.
abbrev s_0 : System
s_0 = record { manager = idle; queue = []; pending = [] }

abbrev s_1 : System
s_1 = record s_0 { queue = tracker (TrackerMessage.peers (host 1 ∷ host 2 ∷ [])) ∷ [] }

abbrev s_2 : System
s_2 = record {
  manager = record idle { spawned = (host 1 ∷ host 2 ∷ []) ∷ [] };
  queue = [];
  pending = (host 1 ∷ host 2 ∷ []) ∷ [];
}

abbrev s_3 : System
s_3 = record s_2 { queue = connection true (host 1) ∷ []; pending = (host 2 ∷ []) ∷ [] }

abbrev s_4 : System
s_4 = record s_3 {
  queue = connection true (host 1) ∷ connection true (host 2) ∷ [];
  pending = [] ∷ [];
}

abbrev s_5 : System
s_5 = record {
  manager = record s_2.manager {
    peers = (host 1, 0) ∷ [];
    channels = 1;
    connections = connection_of sha idle 0 (host 1) true ∷ [];
  };
  queue = connection true (host 2) ∷ [];
  pending = [] ∷ [];
}

reached : Reaches sha 1 s_0 s_5
unfolding turn process_event connection_event connect keys
reached =
    next
      (next
        (next
          (next (next begin (sends (tracker (TrackerMessage.peers (host 1 ∷ host 2 ∷ []))) tt)) (
            takes env (tracker (TrackerMessage.peers (host 1 ∷ host 2 ∷ []))) [] s_2.manager refl
              refl refl))
          (connects [] [] (host 1) (host 2 ∷ []) refl))
        (connects [] [] (host 2) [] refl))
      (takes env (connection true (host 1)) (connection true (host 2) ∷ []) s_5.manager refl refl
        refl)

Reaches-IsValid_example :
    IsValid 1 s_5.manager
    × ((e_env : Env) (e : ManagerEvent) (rest : List ManagerEvent)
        → s_5.queue ≡ e ∷ rest
        → e_env.waits ≡ true
        → Runs (IsValid 1) (turn sha (event e_env e) s_5.manager))
Reaches-IsValid_example = Reaches-IsValid sha 1 s_0 s_5 (refl, refl, refl, refl) reached

-- A peer that is gone is found by a broadcast and connected again; then the end of its first
-- connection arrives and removes the second, so that a third is made while the second lives.
abbrev gone : Env
gone = record env { is_open = λ channel. false }

third_connection :
    manager_loop sha
      (event env (connection true (host 1))
        ∷ event gone (broadcast Ipc.download_completed)
        ∷ event env (connection true (host 1))
        ∷ disconnect (host 1)
        ∷ event env (connection true (host 1))
        ∷ [])
      idle
    ≡ ok (record idle {
      peers = (host 1, 2) ∷ [];
      channels = 3;
      connections =
          connection_of sha idle 0 (host 1) true
          ∷ connection_of sha idle 1 (host 1) true
          ∷ connection_of sha idle 2 (host 1) true
          ∷ [];
    })
unfolding manager_loop turn process_event connection_event broadcast_event send_all replace_all
    replace connect keys remove peer_eq bytes_eq
third_connection = refl

-- The end of a connection makes room, but no peer that waits is connected.
still_waiting :
    turn sha (disconnect (host 1)) full
    ≡ ok (record full { peers = (host 2, 1) ∷ (host 3, 2) ∷ [] })
unfolding turn remove peer_eq bytes_eq
still_waiting = refl
