-- ===== src/Manager/System.antt =====
-- The manager of bt/src/base/manager.rs with the tasks that send it events: which steps they take,
-- and what is true of every state that is reached.
use rust_torrent_client.Prelude.{
  ℕ, ◌<◌, ◌≡◌, refl, subst, List, [], ◌∷◌, ◌++◌, true, Bytes, length, drop, All, All-append, ok,
  Runs, Runs-ok, arith,
}
use rust_torrent_client.Events.{
  Peer, ManagerEvent, continue, broadcast, connection, require_piece_length, file_finish, download,
  require_data, require_incomplete_blocks, require_have_pieces, tracker,
}
use rust_torrent_client.Manager.{Manager, Env, keys, waiting, event, disconnect, turn}
use rust_torrent_client.Manager.Valid.{IsValid, Accepts, turn-IsValid}

-- `queue` holds the events that were sent and not yet taken, `pending` the peers for which a task that
-- the manager spawned has still to send a connection.
pub record System : Type 0 where
  pub manager : Manager
  pub queue : List ManagerEvent
  pub pending : List (List Peer)

-- The events that the other tasks send: no connections, and files that there are.
abbrev pub FromOthers : ℕ → ManagerEvent → Type 0
FromOthers files (connection send_handshake_first p) = ⊥
FromOthers files (file_finish file_index path) = file_index < files
FromOthers files _ = Unit

-- The tasks that a round of the manager spawned.
abbrev new_tasks : Manager → Manager → List (List Peer)
new_tasks before m = drop (length before.spawned) m.spawned

-- `sends` is a task of a peer, of the download or of a tracker; `connects` the task that
-- `process_event` spawns for the peers of a tracker, which sends them one by one; `takes` and
-- `disconnects` are the two arms of `select!` in `manager_loop`, where a peer whose task `connect`
-- started comes out of the other channel.
pub data Step (sha : Bytes → Bytes) (files : ℕ) : System → System → Type 0 where
  sends :
      {s : System} (e : ManagerEvent)
      → FromOthers files e
      → Step sha files s (record s { queue = s.queue ++ e ∷ [] })
  connects :
      {s : System} (xs ys : List (List Peer)) (p : Peer) (ps : List Peer)
      → s.pending ≡ xs ++ (p ∷ ps) ∷ ys
      → Step sha files s
          (record s { queue = s.queue ++ connection true p ∷ []; pending = xs ++ ps ∷ ys })
  takes :
      {s : System} (env : Env) (e : ManagerEvent) (rest : List ManagerEvent) (m : Manager)
      → s.queue ≡ e ∷ rest
      → env.waits ≡ true
      → turn sha (event env e) s.manager ≡ ok m
      → Step sha files s
          (record s { manager = m; queue = rest; pending = s.pending ++ new_tasks s.manager m })
  disconnects :
      {s : System} (p : Peer) (m : Manager)
      → turn sha (disconnect p) s.manager ≡ ok m
      → Step sha files s (record s { manager = m })

pub data Reaches (sha : Bytes → Bytes) (files : ℕ) (s : System) : System → Type 0 where
  begin : Reaches sha files s s
  next : {t u : System} → Reaches sha files s t → Step sha files t u → Reaches sha files s u

-- The manager as `manager_loop` makes it.
abbrev pub IsInitial : ℕ → System → Type 0
IsInitial files s =
    (s.manager.peers ≡ [])
    × (s.manager.peers_deque ≡ [])
    × (s.queue ≡ [])
    × (length s.manager.file_paths ≡ files)

abbrev IsAcceptable : ℕ → ManagerEvent → Type 0
IsAcceptable files (connection send_handshake_first p) = send_handshake_first ≡ true
IsAcceptable files (file_finish file_index path) = file_index < files
IsAcceptable files _ = Unit

FromOthers-IsAcceptable : (files : ℕ) (e : ManagerEvent) → FromOthers files e → IsAcceptable files e
FromOthers-IsAcceptable files continue h = tt
FromOthers-IsAcceptable files (broadcast ipc) h = tt
FromOthers-IsAcceptable files (connection b p) h = absurd h
FromOthers-IsAcceptable files require_piece_length h = tt
FromOthers-IsAcceptable files (file_finish i path) h = h
FromOthers-IsAcceptable files (download message) h = tt
FromOthers-IsAcceptable files (require_data r) h = tt
FromOthers-IsAcceptable files (require_incomplete_blocks i) h = tt
FromOthers-IsAcceptable files require_have_pieces h = tt
FromOthers-IsAcceptable files (tracker message) h = tt

accepts :
    (files : ℕ) (m : Manager) (env : Env) (e : ManagerEvent)
    → length m.file_paths ≡ files
    → env.waits ≡ true
    → IsAcceptable files e
    → Accepts m env e
accepts files m env continue n w h = tt
accepts files m env (broadcast ipc) n w h = tt
accepts files m env (connection b p) n w h = h
accepts files m env require_piece_length n w h = w
accepts files m env (file_finish i path) n w h = omega (arith, n, h)
accepts files m env (download message) n w h = tt
accepts files m env (require_data r) n w h = tt
accepts files m env (require_incomplete_blocks i) n w h = tt
accepts files m env require_have_pieces n w h = tt
accepts files m env (tracker message) n w h = tt

record Holds (files : ℕ) (s : System) : Type 0 where
  valid : IsValid files s.manager
  acceptable : All (IsAcceptable files) s.queue

module _ (sha : Bytes → Bytes) (files : ℕ) where
  turn-Holds :
      (s : System) (env : Env) (e : ManagerEvent) (rest : List ManagerEvent)
      → Holds files s
      → s.queue ≡ e ∷ rest
      → env.waits ≡ true
      → Runs (IsValid files) (turn sha (event env e) s.manager)
  turn-Holds s env e rest h at waits = turn-IsValid sha files (event env e) s.manager h.valid (
      accepts files s.manager env e h.valid.counted waits
        (subst (All (IsAcceptable files)) at h.acceptable).0)

  Step-Holds : {s t : System} → Step sha files s t → Holds files s → Holds files t
  Step-Holds {s} (sends e from) h = record {
    valid = h.valid;
    acceptable =
        All-append (IsAcceptable files) s.queue (e ∷ []) h.acceptable
          (FromOthers-IsAcceptable files e from, tt);
  }
  Step-Holds {s} (connects xs ys p ps at) h = record {
    valid = h.valid;
    acceptable =
        All-append (IsAcceptable files) s.queue (connection true p ∷ []) h.acceptable (refl, tt);
  }
  Step-Holds {s} (takes env e rest m at waits run) h = record {
    valid = Runs-ok (turn-Holds s env e rest h at waits) run;
    acceptable = (subst (All (IsAcceptable files)) at h.acceptable).1;
  }
  Step-Holds {s} (disconnects p m run) h = record {
    valid = Runs-ok (turn-IsValid sha files (disconnect p) s.manager h.valid tt) run;
    acceptable = h.acceptable;
  }

  Reaches-Holds : {s t : System} → Reaches sha files s t → Holds files s → Holds files t
  Reaches-Holds begin h = h
  Reaches-Holds (next r step) h = Step-Holds step (Reaches-Holds r h)

  initial-Holds : (s : System) → IsInitial files s → Holds files s
  unfolding keys waiting
  initial-Holds s (no_peers, no_waiting, no_events, counted) = record {
    valid = record {
      distinct = rw (no_peers, no_waiting) tt;
      bounded = rw no_peers (omega arith);
      counted = counted;
      outgoing = rw no_waiting tt;
    };
    acceptable = rw no_events tt;
  }

  -- In every state that the manager reaches from its start, with whatever the other tasks send
  -- except connections and files that there are not, and however their steps interleave, no
  -- peer is there twice, connected or waiting, at most thirty are connected, and taking the next
  -- event does not panic, as long as whoever asks for the length of a piece waits for it.
  pub Reaches-IsValid :
      (s t : System)
      → IsInitial files s
      → Reaches sha files s t
      → IsValid files t.manager
        × ((env : Env) (e : ManagerEvent) (rest : List ManagerEvent)
            → t.queue ≡ e ∷ rest
            → env.waits ≡ true
            → Runs (IsValid files) (turn sha (event env e) t.manager))
  Reaches-IsValid s t initial r =
      let h = Reaches-Holds r (initial-Holds s initial) in
      (h.valid, λ env e rest at waits. turn-Holds t env e rest h at waits)
