-- ===== src/Manager/Valid.antt =====
-- What stays true of the manager of bt/src/base/manager.rs.
use rust_torrent_client.Prelude.{
  ℕ, ◌≤◌, ◌<◌, ◌≡◌, refl, sym, ap, subst, ◌∙◌, List, [], ◌∷◌, ◌++◌, append_assoc, Bool, true, false,
  Bytes, any, ltb, length, length-append, take, length-take, length-set, All, All-append, arith,
  Runs, ran, erred, Runs-if, ltb→lt, lt→ltb,
}
use rust_torrent_client.Events.{
  Peer, ManagerEvent, continue, broadcast, connection, require_piece_length, file_finish, download,
  require_data, require_incomplete_blocks, require_have_pieces, tracker, TrackerMessage,
}
use rust_torrent_client.Manager.{
  Manager, Env, Input, event, disconnect, has_peer, keys, waiting, pair_eq, connect,
  connection_event, broadcast_event, forward, process_event, turn,
}
use rust_torrent_client.Manager.Peers.{
  Distinct, Distinct-snoc, Distinct-insert, Distinct-remove, length-remove, keys-append,
  waiting-append, absent_append, absent_both,
}
use rust_torrent_client.Manager.Broadcasts.{
  live, closed, numbered, replaced, keys-replaced, broadcast_event-replaced,
}
use rust_torrent_client.Manager.Live.{Distinct-live, length-live-closed, length-numbered, All-drop}

abbrev pub Outgoing : Bool × Peer → Type 0
Outgoing (send_handshake_first, p) = send_handshake_first ≡ true

pub record IsValid (files : ℕ) (m : Manager) : Type 0 where
  pub distinct : Distinct (keys m.peers ++ waiting m.peers_deque)
  pub bounded : length m.peers ≤ 30
  pub counted : length m.file_paths ≡ files
  pub outgoing : All Outgoing m.peers_deque

-- What an event must satisfy for the manager to go on.
abbrev pub Accepts : Manager → Env → ManagerEvent → Type 0
Accepts m env (connection send_handshake_first p) = send_handshake_first ≡ true
Accepts m env require_piece_length = env.waits ≡ true
Accepts m env (file_finish file_index path) = file_index < length m.file_paths
Accepts m env _ = Unit

abbrev pub AcceptsInput : Manager → Input → Type 0
AcceptsInput m (event env e) = Accepts m env e
AcceptsInput m (disconnect p) = Unit

absent_waiting :
    (p : Peer) (deque : List (Bool × Peer))
    → All Outgoing deque
    → any (pair_eq (true, p)) deque ≡ false
    → has_peer p (waiting deque) ≡ false
unfolding waiting
absent_waiting p [] h fresh = refl
absent_waiting p ((true, q) ∷ deque) h fresh =
    ground (arith, fresh, absent_waiting p deque h.1 (ground (arith, fresh)))
absent_waiting p ((false, q) ∷ deque) h fresh = cc h.0

module _ (sha : Bytes → Bytes) (files : ℕ) where
  replaced-IsValid :
      (is_open : ℕ → Bool) (m : Manager)
      → IsValid files m
      → IsValid files (replaced sha (live is_open m.peers) (length (closed is_open m.peers)) m)
  replaced-IsValid is_open m v =
      let k = length (closed is_open m.peers) in
      let next = numbered m.channels (take k m.peers_deque) in
      record {
        distinct =
            subst Distinct (sym (keys-replaced (live is_open m.peers) m.channels k m.peers_deque))
              (Distinct-live is_open m.peers (waiting m.peers_deque) v.distinct);
        bounded = omega (
          arith,
          v.bounded,
          length-append (live is_open m.peers) next,
          length-numbered m.channels (take k m.peers_deque),
          length-take k m.peers_deque,
          length-live-closed is_open m.peers,
        );
        counted = v.counted;
        outgoing = All-drop Outgoing k m.peers_deque v.outgoing;
      }

  connect-IsValid :
      (p : Peer) (m : Manager)
      → IsValid files m
      → has_peer p (keys m.peers ++ waiting m.peers_deque) ≡ false
      → length m.peers < 30
      → Runs (IsValid files) (connect sha true p m)
  unfolding connect keys
  connect-IsValid p m v absent room =
      let (p_map, p_deque) = absent_append p (keys m.peers) (waiting m.peers_deque) absent in
      let joined : keys m.peers ++ p ∷ waiting m.peers_deque
          ≡ keys (m.peers ++ (p, m.channels) ∷ []) ++ waiting m.peers_deque =
        sym (
          ap (λ x. x ++ waiting m.peers_deque) (keys-append m.peers ((p, m.channels) ∷ []))
          ∙ append_assoc (keys m.peers) (p ∷ []) (waiting m.peers_deque)) in
      rw p_map (
        ran (record {
          distinct =
              subst Distinct joined
                (Distinct-insert (keys m.peers) (waiting m.peers_deque) p p_map p_deque v.distinct);
          bounded = omega (arith, room, length-append m.peers ((p, m.channels) ∷ []));
          counted = v.counted;
          outgoing = v.outgoing;
        }))

  pushed-IsValid :
      (p : Peer) (m : Manager)
      → IsValid files m
      → has_peer p (keys m.peers ++ waiting m.peers_deque) ≡ false
      → IsValid files (record m { peers_deque = m.peers_deque ++ (true, p) ∷ [] })
  unfolding waiting
  pushed-IsValid p m v absent =
      let joined : keys m.peers ++ waiting m.peers_deque ++ p ∷ []
          ≡ keys m.peers ++ waiting (m.peers_deque ++ (true, p) ∷ []) =
        append_assoc (keys m.peers) (waiting m.peers_deque) (p ∷ [])
        ∙ ap (λ x. keys m.peers ++ x) (sym (waiting-append m.peers_deque ((true, p) ∷ []))) in
      record {
        distinct =
            subst Distinct joined
              (Distinct-snoc (keys m.peers ++ waiting m.peers_deque) p absent v.distinct);
        bounded = v.bounded;
        counted = v.counted;
        outgoing = All-append Outgoing m.peers_deque ((true, p) ∷ []) v.outgoing (refl, tt);
      }

  connection_event-IsValid :
      (p : Peer) (m : Manager)
      → IsValid files m
      → Runs (IsValid files) (connection_event sha true p m)
  unfolding connection_event
  connection_event-IsValid p m v =
      Runs-if (has_peer p (keys m.peers)) (λ _. ran v)
        λ p_map.
          Runs-if (any (pair_eq (true, p)) m.peers_deque) (λ _. ran v)
            λ fresh.
              let p_deque = absent_waiting p m.peers_deque v.outgoing fresh in
              let absent = absent_both p (keys m.peers) (waiting m.peers_deque) p_map p_deque in
              Runs-if (ltb (length m.peers) 30)
                (λ room. connect-IsValid p m v absent (ltb→lt (length m.peers) 30 room))
                λ _. ran (pushed-IsValid p m v absent)

  forward-IsValid :
      (env : Env) (e : ManagerEvent) (m : Manager)
      → IsValid files m
      → Runs (IsValid files) (forward sha env e m)
  unfolding forward
  forward-IsValid env e m v =
      Runs-if env.download_open
        (λ _. ran (record {
          distinct = v.distinct;
          bounded = v.bounded;
          counted = v.counted;
          outgoing = v.outgoing;
        }))
        λ _. erred

  process_event-IsValid :
      (env : Env) (e : ManagerEvent) (m : Manager)
      → IsValid files m
      → Accepts m env e
      → Runs (IsValid files) (process_event sha env e m)
  unfolding process_event broadcast_event
  process_event-IsValid env continue m v a = ran v
  process_event-IsValid env (broadcast ipc) m v a =
      rw (broadcast_event-replaced sha env ipc m v.distinct) (
        ran (
          replaced-IsValid env.is_open (record m { sent = _ })
            (record {
              distinct = v.distinct;
              bounded = v.bounded;
              counted = v.counted;
              outgoing = v.outgoing;
            })))
  process_event-IsValid env (connection send_handshake_first p) m v a =
      rw a (connection_event-IsValid p m v)
  process_event-IsValid env require_piece_length m v a = rw a (
      ran (record {
        distinct = v.distinct;
        bounded = v.bounded;
        counted = v.counted;
        outgoing = v.outgoing;
      }))
  process_event-IsValid env (file_finish file_index path) m v a =
      rw (lt→ltb file_index (length m.file_paths) a) (
        ran (record {
          distinct = v.distinct;
          bounded = v.bounded;
          counted = length-set m.file_paths file_index path ∙ v.counted;
          outgoing = v.outgoing;
        }))
  process_event-IsValid env (tracker (TrackerMessage.peers ps)) m v a = ran (record {
    distinct = v.distinct;
    bounded = v.bounded;
    counted = v.counted;
    outgoing = v.outgoing;
  })
  process_event-IsValid env (download message) m v a = forward-IsValid env (download message) m v
  process_event-IsValid env (require_data r) m v a = forward-IsValid env (require_data r) m v
  process_event-IsValid env (require_incomplete_blocks i) m v a =
      forward-IsValid env (require_incomplete_blocks i) m v
  process_event-IsValid env require_have_pieces m v a = forward-IsValid env require_have_pieces m v

  -- A round of the loop with an input that the manager accepts does not panic, and leaves no peer
  -- twice among the connected and the waiting, at most thirty connected, and only outgoing
  -- connections waiting, if it was so before; the number of files stays.
  pub turn-IsValid :
      (input : Input) (m : Manager)
      → IsValid files m
      → AcceptsInput m input
      → Runs (IsValid files) (turn sha input m)
  unfolding turn
  turn-IsValid (event env e) m v a = process_event-IsValid env e m v a
  turn-IsValid (disconnect p) m v a = ran (record {
    distinct = Distinct-remove p m.peers (waiting m.peers_deque) v.distinct;
    bounded = omega (arith, v.bounded, length-remove p m.peers);
    counted = v.counted;
    outgoing = v.outgoing;
  })
