-- ===== src/Peer/Queue/Laws.antt =====
-- A request queue holds at most one request for a block, in the order of arrival.
use rust_torrent_client.Prelude.{
  ℕ, suc, ◌≡◌, refl, sym, ◌∙◌, List, [], ◌∷◌, ◌++◌, Option, none, some, Bool, true, false, not,
  ◌==◌, if◌then◌else◌, length, get_elem?, arith, Bool-cases, inl, inr,
}
use rust_torrent_client.Peer.Queue.{
  RequestMetadata, RequestQueue, len, pop_front, matches, find_position, remove_at, has, add, pop,
  remove,
}

-- The specification: membership and removal by recursion on the list.
abbrev pub contains : ℕ → ℕ → List RequestMetadata → Bool
contains p b [] = false
contains p b (r ∷ rs) = if matches r p b then true else contains p b rs

abbrev pub erase : ℕ → ℕ → List RequestMetadata → List RequestMetadata
erase p b [] = []
erase p b (r ∷ rs) = if matches r p b then rs else r ∷ erase p b rs

abbrev pub find : ℕ → ℕ → List RequestMetadata → Option RequestMetadata
find p b [] = none
find p b (r ∷ rs) = if matches r p b then some r else find p b rs

-- No two requests are for one block.
abbrev pub Unique : List RequestMetadata → Type 0
Unique [] = Unit
Unique (r ∷ rs) = (contains r.piece_index r.block_index rs ≡ false) × Unique rs

module _ (p b : ℕ) where
  removed : List RequestMetadata → Option ℕ → RequestQueue × Option RequestMetadata
  removed rs none = (record { requests = rs }, none)
  removed rs (some i) = (record { requests = remove_at i rs }, get_elem? rs i)

  removed-find_position :
      (rs : List RequestMetadata)
      → removed rs (find_position p b rs) ≡ (record { requests = erase p b rs }, find p b rs)
  unfolding removed find_position remove_at
  removed-find_position [] = refl
  removed-find_position (r ∷ rs) = ground (arith, removed-find_position rs)

  pub has_lem : (q : RequestQueue) → has q p b ≡ contains p b q.requests
  unfolding has find_position
  has_lem q = go q.requests
    where
      go : (rs : List RequestMetadata) → has (record { requests = rs }) p b ≡ contains p b rs
      go [] = refl
      go (r ∷ rs) = ground (arith, go rs)

  pub remove_lem :
      (q : RequestQueue)
      → remove q p b ≡ (record { requests = erase p b q.requests }, find p b q.requests)
  unfolding remove removed
  remove_lem q = ground (arith, removed-find_position q.requests)

-- The key of a block.
abbrev pub same : ℕ → ℕ → ℕ → ℕ → Bool
same p b p' b' = if p == p' then b == b' else false

module _ (p b p' b' : ℕ) where
  contains-append :
      (rs : List RequestMetadata) (r : RequestMetadata)
      → contains p' b' (rs ++ r ∷ []) ≡ (if contains p' b' rs then true else matches r p' b')
  contains-append [] r = ground arith
  contains-append (x ∷ rs) r = ground (arith, contains-append rs r)

  contains-erase_ne :
      (rs : List RequestMetadata)
      → same p b p' b' ≡ false
      → contains p' b' (erase p b rs) ≡ contains p' b' rs
  unfolding matches
  contains-erase_ne [] h = refl
  contains-erase_ne (x ∷ rs) h = ground (arith, contains-erase_ne rs h)

  contains-erase_le :
      (rs : List RequestMetadata)
      → contains p' b' rs ≡ false
      → contains p' b' (erase p b rs) ≡ false
  contains-erase_le [] h = refl
  contains-erase_le (x ∷ rs) h = ground (arith, contains-erase_le rs)

module _ (p b : ℕ) where
  contains-erase_self :
      (rs : List RequestMetadata) → Unique rs → contains p b (erase p b rs) ≡ false
  unfolding matches
  contains-erase_self [] u = refl
  contains-erase_self (x ∷ rs) u = ground (arith, contains-erase_self rs u.1, u.0)

  erase-Unique : (rs : List RequestMetadata) → Unique rs → Unique (erase p b rs)
  erase-Unique [] u = tt
  erase-Unique (r ∷ rs) u = elim (Bool-cases (matches r p b)) [
    | inl e ↦ rw e u.1
    | inr e ↦ rw e (contains-erase_le p b r.piece_index r.block_index rs u.0, erase-Unique rs u.1)
  ]

  pub find-matches :
      (rs : List RequestMetadata) (r : RequestMetadata)
      → find p b rs ≡ some r
      → matches r p b ≡ true
  find-matches [] r e = cc
  find-matches (x ∷ rs) r e = ground (arith, find-matches rs r)

  find-contains :
      (rs : List RequestMetadata)
      → contains p b rs ≡ true
      → (r : RequestMetadata) × (find p b rs ≡ some r)
  find-contains [] e = cc
  find-contains (x ∷ rs) e = elim (Bool-cases (matches x p b)) [
    | inl h ↦ (x, rw h)
    | inr h ↦ rw h (find-contains rs (rw h at e))
  ]

  pub length-erase :
      (rs : List RequestMetadata) → contains p b rs ≡ true → suc (length (erase p b rs)) ≡ length rs
  length-erase [] e = cc
  length-erase (x ∷ rs) e = ground (arith, length-erase rs)

append-Unique :
    (rs : List RequestMetadata) (r : RequestMetadata)
    → Unique rs
    → contains r.piece_index r.block_index rs ≡ false
    → Unique (rs ++ r ∷ [])
unfolding matches
append-Unique [] r u h = (refl, tt)
append-Unique (x ∷ rs) r u h = (
  ground (arith, contains-append 0 0 x.piece_index x.block_index rs r, u.0),
  append-Unique rs r u.1 (ground arith),
)

module _ (q : RequestQueue) (p b p' b' : ℕ) where
  -- After `add` the queue has the block asked for, and else what it had; `add` says whether the
  -- block is new.
  pub has-add :
      (offset len : ℕ)
      → (has (add q p b offset len).0 p' b' ≡ (if same p b p' b' then true else has q p' b'))
        × ((add q p b offset len).1 ≡ not (has q p b))
  unfolding add matches
  has-add offset len = rw (has_lem p b q) (
      simp (has_lem p' b') (
        ground (
          arith,
          contains-append p b p' b' q.requests
              (record { piece_index = p; block_index = b; offset = offset; block_length = len }),
        )))

  -- In a queue without duplicates `remove` takes out that block and no other.
  pub has-remove :
      Unique q.requests
      → has (remove q p b).0 p' b' ≡ (if same p b p' b' then false else has q p' b')
  has-remove u =
      simp (has_lem p' b', remove_lem p b)
        (ground
          (arith, contains-erase_ne p b p' b' q.requests, contains-erase_self p b q.requests u))

module _ (q : RequestQueue) (p b : ℕ) where
  pub add-Unique : (offset len : ℕ) → Unique q.requests → Unique (add q p b offset len).0.requests
  unfolding add
  add-Unique offset len u = elim (Bool-cases (has q p b)) [
    | inl e ↦ rw e u
    | inr e ↦ rw e (
        append-Unique q.requests
          (record { piece_index = p; block_index = b; offset = offset; block_length = len }) u
          (sym (has_lem p b q) ∙ e))
  ]

  pub remove-Unique : Unique q.requests → Unique (remove q p b).0.requests
  remove-Unique u = rw remove_lem (erase-Unique p b q.requests u)

  -- `remove` returns a request for the block, exactly if the queue has one, and the queue is then
  -- shorter by one; else it leaves the queue as it is.
  pub remove_result :
      (has q p b ≡ true
        → (r : RequestMetadata) × ((remove q p b).1 ≡ some r)
          × (matches r p b ≡ true)
          × (len q ≡ suc (len (remove q p b).0)))
      × (has q p b ≡ false → remove q p b ≡ (q, none))
  unfolding len
  remove_result = (
    λ h.
        let (r, e) = find-contains p b q.requests (sym (has_lem p b q) ∙ h) in
        (
          r,
          rw remove_lem e,
          find-matches p b q.requests r e,
          rw remove_lem (sym (length-erase p b q.requests (sym (has_lem p b q) ∙ h))),
        ),
    λ h. rw remove_lem (absent q.requests (sym (has_lem p b q) ∙ h)),
  )
    where
      absent :
          (rs : List RequestMetadata)
          → contains p b rs ≡ false
          → ◌≡◌ {A = RequestQueue × Option RequestMetadata}
              (record { requests = erase p b rs }, find p b rs)
              (record { requests = rs }, none)
      absent [] e = refl
      absent (x ∷ rs) e = ground (arith, absent rs)

pub pop-Unique : (q : RequestQueue) → Unique q.requests → Unique (pop q).0.requests
unfolding pop
pop-Unique q u = go q.requests u
  where
    go : (rs : List RequestMetadata) → Unique rs → Unique (pop_front rs).0.requests
    go [] u = u
    go (r ∷ rs) u = u.1

-- A request for a new block that is added to a queue that has a first request waits behind it:
-- taking out the first one and adding can be done in either order.
pub pop-add :
    (q : RequestQueue) (p b offset len : ℕ) (r : RequestMetadata)
    → has q p b ≡ false
    → (pop q).1 ≡ some r
    → pop (add q p b offset len).0 ≡ ((add (pop q).0 p b offset len).0, some r)
unfolding add pop pop_front
pop-add q p b offset len r fresh = go q.requests (sym (has_lem p b q) ∙ fresh)
  where
    go :
        (rs : List RequestMetadata)
        → contains p b rs ≡ false
        → (pop (record { requests = rs })).1 ≡ some r
        → pop (add (record { requests = rs }) p b offset len).0
          ≡ ((add (pop (record { requests = rs })).0 p b offset len).0, some r)
    go [] h e = cc
    go (x ∷ xs) h e = simp (has_lem p b) (ground arith)
