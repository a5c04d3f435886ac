-- ===== src/Manager/Broadcasts.antt =====
-- A broadcast of bt/src/base/manager.rs and the peers that take the places of those that are gone.
use rust_torrent_client.Prelude.{
  ℕ, zero, suc, ◌+◌, ◌≡◌, refl, sym, ap, subst, ◌∙◌, List, [], ◌∷◌, ◌++◌, append_assoc, append-nil,
  Bool, Bool-cases, inl, inr, Bytes, if◌then◌else◌, length, take, drop, arith, ok,
}
use rust_torrent_client.Ipc.{Ipc}
use rust_torrent_client.Events.{Peer}
use rust_torrent_client.Meta.{info_hash}
use rust_torrent_client.Manager.{
  Connection, Manager, Env, keys, waiting, remove, connect, send_all, replace, replace_all,
  broadcast_event,
}
use rust_torrent_client.Manager.Peers.{Distinct, Distinct-middle, keys-append, remove-middle}

-- The peers whose channel is open, and the others.
unfoldable pub live : (ℕ → Bool) → List (Peer × ℕ) → List (Peer × ℕ)
live is_open [] = []
live is_open ((p, channel) ∷ map) =
    let rest = live is_open map in if is_open channel then (p, channel) ∷ rest else rest

unfoldable pub closed : (ℕ → Bool) → List (Peer × ℕ) → List Peer
closed is_open [] = []
closed is_open ((p, channel) ∷ map) =
    let rest = closed is_open map in if is_open channel then rest else p ∷ rest

unfoldable pub deliveries : Ipc → List (Peer × ℕ) → List (ℕ × Ipc)
deliveries ipc [] = []
deliveries ipc ((p, channel) ∷ map) = (channel, ipc) ∷ deliveries ipc map

-- Peers from the queue with their new channels, and their connections.
unfoldable pub numbered : ℕ → List (Bool × Peer) → List (Peer × ℕ)
numbered n [] = []
numbered n ((first, p) ∷ deque) = (p, n) ∷ numbered (n + 1) deque

unfoldable pub started : (ℕ → Peer → Bool → Connection) → ℕ → List (Bool × Peer) → List Connection
started make n [] = []
started make n ((first, p) ∷ deque) = make n p first ∷ started make (n + 1) deque

abbrev pub connection_of : (Bytes → Bytes) → Manager → ℕ → Peer → Bool → Connection
connection_of sha m n p first = record {
  send_handshake_first = first;
  our_peer_id = m.our_peer_id;
  info_hash = info_hash sha m.meta_info;
  peer = p;
  channel = n;
}

-- The manager when the peers that are left are `rest` and `k` places are free for the queue.
abbrev pub replaced : (Bytes → Bytes) → List (Peer × ℕ) → ℕ → Manager → Manager
replaced sha rest k m = record m {
  peers = rest ++ numbered m.channels (take k m.peers_deque);
  peers_deque = drop k m.peers_deque;
  channels = m.channels + length (take k m.peers_deque);
  connections = m.connections ++ started (connection_of sha m) m.channels (take k m.peers_deque);
}

send_all_lem :
    (is_open : ℕ → Bool) (ipc : Ipc) (map : List (Peer × ℕ))
    → send_all is_open ipc map ≡ (deliveries ipc (live is_open map), closed is_open map)
unfolding send_all live closed deliveries
send_all_lem is_open ipc [] = refl
send_all_lem is_open ipc ((p, channel) ∷ map) = elim (Bool-cases (is_open channel)) [
  | inl e ↦ rw e (rw (send_all_lem is_open ipc map))
  | inr e ↦ rw e (rw (send_all_lem is_open ipc map))
]

take-nil : (k : ℕ) → take {A = Bool × Peer} k [] ≡ []
take-nil zero = refl
take-nil (suc k) = refl

drop-nil : (k : ℕ) → drop {A = Bool × Peer} k [] ≡ []
drop-nil zero = refl
drop-nil (suc k) = refl

keys-numbered :
    (n k : ℕ) (deque : List (Bool × Peer))
    → keys (numbered n (take k deque)) ++ waiting (drop k deque) ≡ waiting deque
unfolding keys numbered waiting
keys-numbered n zero deque = refl
keys-numbered n (suc k) [] = refl
keys-numbered n (suc k) ((b, p) ∷ deque) = ap (λ t. p ∷ t) (keys-numbered (n + 1) k deque)

-- The peers that are known, connected or waiting, are those that are left and those that wait.
pub keys-replaced :
    (rest : List (Peer × ℕ)) (n k : ℕ) (deque : List (Bool × Peer))
    → keys (rest ++ numbered n (take k deque)) ++ waiting (drop k deque)
      ≡ keys rest ++ waiting deque
keys-replaced rest n k deque = rw (
  keys-append rest (numbered n (take k deque)),
  append_assoc (keys rest) (keys (numbered n (take k deque))) (waiting (drop k deque)),
  keys-numbered n k deque,
)

remove-Distinct :
    (p : Peer) (channel : ℕ) (xs rest map : List (Peer × ℕ)) (ps : List Peer)
    → map ≡ xs ++ (p, channel) ∷ rest
    → Distinct (keys map ++ ps)
    → (remove p map ≡ xs ++ rest) × Distinct (keys (remove p map) ++ ps)
unfolding keys
remove-Distinct p channel xs rest map ps e d =
    let split : keys map ++ ps ≡ keys xs ++ p ∷ (keys rest ++ ps) =
      ap (λ x. keys x ++ ps) e
      ∙ ap (λ x. x ++ ps) (keys-append xs ((p, channel) ∷ rest))
      ∙ append_assoc (keys xs) (p ∷ keys rest) ps in
    let (absent, _, left) =
      Distinct-middle (keys xs) (keys rest ++ ps) p (subst Distinct split d) in
    let removed = ap (remove p) e ∙ remove-middle p channel xs rest absent in
    let joined : keys xs ++ (keys rest ++ ps) ≡ keys (remove p map) ++ ps = sym (
      ap (λ x. keys x ++ ps) removed
      ∙ ap (λ x. x ++ ps) (keys-append xs rest)
      ∙ append_assoc (keys xs) (keys rest) ps) in
    (removed, subst Distinct joined left)

module _ (sha : Bytes → Bytes) where
  replaced-none :
      (rest : List (Peer × ℕ)) (m : Manager) → m.peers ≡ rest → replaced sha rest 0 m ≡ m
  unfolding numbered started
  replaced-none rest m e =
      let channels : m.channels + 0 ≡ m.channels = omega arith in
      rw (append-nil rest, append-nil m.connections, channels, ← e)

  replaced-replaced :
      (xs ys : List (Peer × ℕ)) (k : ℕ) (m : Manager) (deque : List (Bool × Peer))
      → m.peers_deque ≡ deque
      → replaced sha (xs ++ numbered m.channels (take 1 deque)) k (replaced sha ys 1 m)
        ≡ replaced sha xs (suc k) m
  unfolding numbered started
  replaced-replaced xs ys k m [] e =
      let channels : m.channels + 0 + 0 ≡ m.channels + 0 = omega arith in
      rw (e, take-nil k, drop-nil k, channels)
        (rw (append-nil xs, append-nil m.connections)
          (rw (append-nil xs, append-nil m.connections)))
  replaced-replaced xs ys k m ((b, q) ∷ deque) e =
      let n = length (take k deque) in
      let channels : m.channels + 1 + n ≡ m.channels + suc n = omega arith in
      rw (
        e,
        append_assoc xs ((q, m.channels) ∷ []) (numbered (m.channels + 1) (take k deque)),
        append_assoc m.connections (connection_of sha m m.channels q b ∷ [])
            (started (connection_of sha m) (m.channels + 1) (take k deque)),
        channels,
      )

  replace-replaced :
      (p : Peer) (m : Manager)
      → Distinct (keys (remove p m.peers) ++ waiting m.peers_deque)
      → replace sha p m ≡ ok (replaced sha (remove p m.peers) 1 m)
  unfolding replace connect numbered started waiting
  replace-replaced p m d = by_deque m.peers_deque refl
    where
      by_deque :
          (deque : List (Bool × Peer))
          → m.peers_deque ≡ deque
          → replace sha p m ≡ ok (replaced sha (remove p m.peers) 1 m)
      by_deque [] e =
          let channels : m.channels + 0 ≡ m.channels = omega arith in
          rw (e, append-nil (remove p m.peers), append-nil m.connections, channels)
      by_deque ((b, q) ∷ deque) e =
          let split : Distinct (keys (remove p m.peers) ++ q ∷ waiting deque) =
            subst (λ w. Distinct (keys (remove p m.peers) ++ waiting w)) e d in
          let absent = (Distinct-middle (keys (remove p m.peers)) (waiting deque) q split).0 in
          rw e (rw absent)

  -- The peers `xs` were passed over, `ys` are to be gone through and `zs` came from the queue.
  replace_all-replaced :
      (is_open : ℕ → Bool) (ys xs zs : List (Peer × ℕ)) (m : Manager)
      → m.peers ≡ xs ++ (ys ++ zs)
      → Distinct (keys m.peers ++ waiting m.peers_deque)
      → replace_all sha (closed is_open ys) m
        ≡ ok (replaced sha (xs ++ (live is_open ys ++ zs)) (length (closed is_open ys)) m)
  unfolding replace_all live closed
  replace_all-replaced is_open [] xs zs m e d = ap ok (sym (replaced-none (xs ++ zs) m e))
  replace_all-replaced is_open ((p, channel) ∷ ys) xs zs m e d =
      elim (Bool-cases (is_open channel)) [
        | inl up ↦ rw up (
            replace_all-replaced is_open ys (xs ++ (p, channel) ∷ []) zs m
              (e ∙ sym (append_assoc xs ((p, channel) ∷ []) (ys ++ zs))) d
            ∙ rw (append_assoc xs ((p, channel) ∷ []) (live is_open ys ++ zs)))
        | inr down ↦
            let (removed, left) =
              remove-Distinct p channel xs (ys ++ zs) m.peers (waiting m.peers_deque) e d in
            let next = numbered m.channels (take 1 m.peers_deque) in
            let known = sym (keys-replaced (remove p m.peers) m.channels 1 m.peers_deque) in
            let peers =
              ap (λ x. x ++ next) removed
              ∙ append_assoc xs (ys ++ zs) next
              ∙ ap (λ x. xs ++ x) (append_assoc ys zs next) in
            let target : xs ++ (live is_open ys ++ (zs ++ next))
                ≡ xs ++ (live is_open ys ++ zs) ++ next =
              sym (
                append_assoc xs (live is_open ys ++ zs) next
                ∙ ap (λ x. xs ++ x) (append_assoc (live is_open ys) zs next)) in
            let k = length (closed is_open ys) in
            rw down (
              rw (replace-replaced p m left) (
                replace_all-replaced is_open ys xs (zs ++ next)
                  (replaced sha (remove p m.peers) 1 m) peers (subst Distinct known left)
                ∙ ap (λ x. ok (replaced sha x k (replaced sha (remove p m.peers) 1 m))) target
                ∙ ap ok (
                    replaced-replaced (xs ++ (live is_open ys ++ zs)) (remove p m.peers) k m
                      m.peers_deque refl)))
      ]

-- In a manager in which no peer is there twice, connected or waiting, a broadcast succeeds. It
-- is delivered to the peers whose channel is open; these stay, the others are removed, and for each
-- of them the peer that has waited longest is connected, as long as there is one, with a new
-- channel on which the message is not sent. Nothing else changes.
pub broadcast_event-replaced :
    (sha : Bytes → Bytes) (env : Env) (ipc : Ipc) (m : Manager)
    → Distinct (keys m.peers ++ waiting m.peers_deque)
    → broadcast_event sha env ipc m
      ≡ ok (
          replaced sha
            (live env.is_open m.peers)
            (length (closed env.is_open m.peers))
            (record m { sent = m.sent ++ deliveries ipc (live env.is_open m.peers) }))
unfolding broadcast_event
broadcast_event-replaced sha env ipc m d =
    let sent = record m { sent = m.sent ++ deliveries ipc (live env.is_open m.peers) } in
    rw (send_all_lem env.is_open ipc m.peers) (
      replace_all-replaced sha env.is_open m.peers [] [] sent (sym (append-nil m.peers)) d
      ∙ ap (λ x. ok (replaced sha x (length (closed env.is_open m.peers)) sent))
          (append-nil (live env.is_open m.peers)))
