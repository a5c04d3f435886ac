-- ===== src/Manager/Live.antt =====
-- The peers that a broadcast of bt/src/base/manager.rs leaves.
use rust_torrent_client.Prelude.{
  ℕ, zero, suc, ◌+◌, ◌≡◌, refl, ap, List, [], ◌∷◌, ◌++◌, Bool, false, Bool-cases, inl, inr, length,
  drop, All, arith,
}
use rust_torrent_client.Events.{Peer}
use rust_torrent_client.Manager.{has_peer, keys}
use rust_torrent_client.Manager.Peers.{Distinct}
use rust_torrent_client.Manager.Broadcasts.{live, closed, numbered}

absent-live :
    (is_open : ℕ → Bool) (p : Peer) (map : List (Peer × ℕ)) (ps : List Peer)
    → has_peer p (keys map ++ ps) ≡ false
    → has_peer p (keys (live is_open map) ++ ps) ≡ false
unfolding live keys
absent-live is_open p [] ps h = h
absent-live is_open p ((q, channel) ∷ map) ps h =
    let rest = absent-live is_open p map ps (ground (arith, h)) in
    elim (Bool-cases (is_open channel)) [
      | inl up ↦ rw up (ground (arith, h, rest))
      | inr down ↦ rw down rest
    ]

pub Distinct-live :
    (is_open : ℕ → Bool) (map : List (Peer × ℕ)) (ps : List Peer)
    → Distinct (keys map ++ ps)
    → Distinct (keys (live is_open map) ++ ps)
unfolding live keys
Distinct-live is_open [] ps d = d
Distinct-live is_open ((q, channel) ∷ map) ps d = elim (Bool-cases (is_open channel)) [
  | inl up ↦ rw up (absent-live is_open q map ps d.0, Distinct-live is_open map ps d.1)
  | inr down ↦ rw down (Distinct-live is_open map ps d.1)
]

pub length-live-closed :
    (is_open : ℕ → Bool) (map : List (Peer × ℕ))
    → length (live is_open map) + length (closed is_open map) ≡ length map
unfolding live closed
length-live-closed is_open [] = omega arith
length-live-closed is_open ((q, channel) ∷ map) = ground (arith, length-live-closed is_open map)

pub length-numbered :
    (n : ℕ) (deque : List (Bool × Peer)) → length (numbered n deque) ≡ length deque
unfolding numbered
length-numbered n [] = refl
length-numbered n ((b, p) ∷ deque) = ap suc (length-numbered (n + 1) deque)

pub All-drop : {A : Type 0} (P : A → Type 0) (k : ℕ) (xs : List A) → All P xs → All P (drop k xs)
All-drop P zero xs h = h
All-drop P (suc k) [] h = tt
All-drop P (suc k) (x ∷ xs) h = All-drop P k xs h.1
