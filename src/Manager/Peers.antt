-- ===== src/Manager/Peers.antt =====
-- The map of the peers and the queue of bt/src/base/manager.rs, as lists without duplicates.
use rust_torrent_client.Prelude.{
  ℕ, ◌≤◌, ◌≡◌, refl, ap, List, [], ◌∷◌, ◌++◌, append-nil, Bool, true, false, Bool-cases, inl, inr,
  if◌then◌else◌, length, arith,
}
use rust_torrent_client.Peer.Handshake.Agree.{bytes_eq_iff}
use rust_torrent_client.Events.{Peer}
use rust_torrent_client.Manager.{peer_eq, has_peer, keys, waiting, remove}

pub peer_eq_refl : (p : Peer) → peer_eq p p ≡ true
unfolding peer_eq
peer_eq_refl p = ground (arith, (bytes_eq_iff p.ip p.ip).1 refl)

peer_eq-is : (p q : Peer) → peer_eq p q ≡ true → p ≡ q
unfolding peer_eq
peer_eq-is p q e =
    let ip = (bytes_eq_iff p.ip q.ip).0 (ground (arith, e)) in
    let port : p.port ≡ q.port = ground (arith, e) in cc (ip, port)

peer_eq_flip : (p q : Peer) → peer_eq p q ≡ false → peer_eq q p ≡ false
peer_eq_flip p q e = elim (Bool-cases (peer_eq q p)) [
  | inl same ↦ let is = peer_eq-is q p same in cc (e, is, peer_eq_refl p)
  | inr other ↦ other
]

pub has_peer-append :
    (p : Peer) (xs ys : List Peer)
    → has_peer p (xs ++ ys) ≡ (if has_peer p xs then true else has_peer p ys)
has_peer-append p [] ys = refl
has_peer-append p (x ∷ xs) ys = ground (arith, has_peer-append p xs ys)

-- No peer is there twice.
abbrev pub Distinct : List Peer → Type 0
Distinct [] = Unit
Distinct (p ∷ ps) = (has_peer p ps ≡ false) × Distinct ps

-- `p` is none of `xs ++ ys`, and so of neither.
pub absent_append :
    (p : Peer) (xs ys : List Peer)
    → has_peer p (xs ++ ys) ≡ false
    → (has_peer p xs ≡ false) × (has_peer p ys ≡ false)
absent_append p xs ys h = ground (arith, h, has_peer-append p xs ys)

pub absent_both :
    (p : Peer) (xs ys : List Peer)
    → has_peer p xs ≡ false
    → has_peer p ys ≡ false
    → has_peer p (xs ++ ys) ≡ false
absent_both p xs ys h k = ground (arith, h, k, has_peer-append p xs ys)

pub Distinct-middle :
    (xs ys : List Peer) (p : Peer)
    → Distinct (xs ++ p ∷ ys)
    → (has_peer p xs ≡ false) × (has_peer p ys ≡ false) × Distinct (xs ++ ys)
Distinct-middle [] ys p d = (refl, d.0, d.1)
Distinct-middle (x ∷ xs) ys p d =
    let (p_xs, p_ys, rest) = Distinct-middle xs ys p d.1 in
    let (x_xs, x_ys) = absent_append x xs (p ∷ ys) d.0 in
    let x_p : peer_eq x p ≡ false = ground (arith, x_ys) in
    let x_rest : has_peer x ys ≡ false = ground (arith, x_ys) in
    (rw (peer_eq_flip x p x_p) p_xs, p_ys, (absent_both x xs ys x_xs x_rest, rest))

pub Distinct-insert :
    (xs ys : List Peer) (p : Peer)
    → has_peer p xs ≡ false
    → has_peer p ys ≡ false
    → Distinct (xs ++ ys)
    → Distinct (xs ++ p ∷ ys)
Distinct-insert [] ys p h k d = (k, d)
Distinct-insert (x ∷ xs) ys p h k d =
    let p_x : peer_eq p x ≡ false = ground (arith, h) in
    let p_xs : has_peer p xs ≡ false = ground (arith, h) in
    let (x_xs, x_ys) = absent_append x xs ys d.0 in
    (
      absent_both x xs (p ∷ ys) x_xs (rw (peer_eq_flip p x p_x) x_ys),
      Distinct-insert xs ys p p_xs k d.1,
    )

pub Distinct-snoc :
    (xs : List Peer) (p : Peer) → has_peer p xs ≡ false → Distinct xs → Distinct (xs ++ p ∷ [])
Distinct-snoc xs p h d = Distinct-insert xs [] p h refl (rw append-nil d)

pub keys-append : (xs ys : List (Peer × ℕ)) → keys (xs ++ ys) ≡ keys xs ++ keys ys
unfolding keys
keys-append [] ys = refl
keys-append ((p, channel) ∷ xs) ys = ap (λ t. p ∷ t) (keys-append xs ys)

pub waiting-append : (xs ys : List (Bool × Peer)) → waiting (xs ++ ys) ≡ waiting xs ++ waiting ys
unfolding waiting
waiting-append [] ys = refl
waiting-append ((b, p) ∷ xs) ys = ap (λ t. p ∷ t) (waiting-append xs ys)

pub remove-middle :
    (p : Peer) (channel : ℕ) (xs ys : List (Peer × ℕ))
    → has_peer p (keys xs) ≡ false
    → remove p (xs ++ (p, channel) ∷ ys) ≡ xs ++ ys
unfolding remove keys
remove-middle p channel [] ys h = rw (peer_eq_refl p)
remove-middle p channel ((q, c) ∷ xs) ys h =
    let other : peer_eq p q ≡ false = ground (arith, h) in
    rw other (ap (λ t. (q, c) ∷ t) (remove-middle p channel xs ys (ground (arith, h))))

-- What is left of the peers after one is removed.
absent-remove :
    (x p : Peer) (map : List (Peer × ℕ)) (ps : List Peer)
    → has_peer x (keys map ++ ps) ≡ false
    → has_peer x (keys (remove p map) ++ ps) ≡ false
unfolding remove keys
absent-remove x p [] ps h = h
absent-remove x p ((q, c) ∷ map) ps h = elim (Bool-cases (peer_eq p q)) [
  | inl same ↦ rw same (ground (arith, h))
  | inr other ↦
      rw other (let rest = absent-remove x p map ps (ground (arith, h)) in ground (arith, h, rest))
]

pub Distinct-remove :
    (p : Peer) (map : List (Peer × ℕ)) (ps : List Peer)
    → Distinct (keys map ++ ps)
    → Distinct (keys (remove p map) ++ ps)
unfolding remove keys
Distinct-remove p [] ps d = d
Distinct-remove p ((q, c) ∷ map) ps d = elim (Bool-cases (peer_eq p q)) [
  | inl same ↦ rw same d.1
  | inr other ↦ rw other (absent-remove q p map ps d.0, Distinct-remove p map ps d.1)
]

pub length-remove : (p : Peer) (map : List (Peer × ℕ)) → length (remove p map) ≤ length map
unfolding remove
length-remove p [] = omega arith
length-remove p ((q, c) ∷ map) = ground (arith, length-remove p map)
