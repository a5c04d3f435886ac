-- ===== src/Tracker/Shuffle.antt =====
-- `knuth_shuffle` of bt/src/tracker/tracker_supervisor.rs and `swap_to_head` of
-- bt/src/bencode/hash.rs.
use rust_torrent_client.Prelude.{
  ℕ, zero, suc, ◌+◌, ◌-◌, ◌%◌, List, [], ◌∷◌, ltb, if◌then◌else◌, length, get_elem?, set, Outcome,
  ok, panic, ◌>>=◌, or_panic, minus,
}
use rust_torrent_client.Tracker.Client.{TrackerError}

-- `list.swap(i, j)`
unfoldable pub swap : {A : Type 0} → List A → ℕ → ℕ → Outcome TrackerError (List A)
swap list i j = do
  a ← or_panic (get_elem? list i)
  b ← or_panic (get_elem? list j)
  ok (set (set list i b) j a)

-- What the random numbers are: for the number of a call, and the end of the range, any number, taken
-- below that end.
abbrev pub Draws : Type 0
Draws = ℕ → ℕ → ℕ

-- `gen_range(0, k)`, which panics on an empty range; `calls` were made before.
abbrev pub gen_range : Draws → ℕ → ℕ → Outcome TrackerError ℕ
gen_range draws calls k = if ltb 0 k then ok (draws calls k % k) else panic

-- The rounds of `knuth_shuffle` from `i` on, the first of which makes the call with the number
-- `calls`.
unfoldable pub shuffle_from :
    {A : Type 0} → Draws → ℕ → ℕ → ℕ → List A → Outcome TrackerError (List A)
shuffle_from draws calls zero i list = ok list
shuffle_from draws calls (suc rounds) i list = do
  left ← minus (length list) i
  k ← minus left 1
  r ← gen_range draws calls k
  list_1 ← swap list k r
  shuffle_from draws (calls + 1) rounds (i + 1) list_1

unfoldable pub knuth_shuffle : {A : Type 0} → Draws → ℕ → List A → Outcome TrackerError (List A)
knuth_shuffle draws calls list = do
  rounds ← minus (length list) 1
  shuffle_from draws calls rounds 0 list

-- `shuffle_announce_list`: each tier goes on with the calls after those of the tier before it.
unfoldable pub shuffle_announce_list :
    {A : Type 0} → Draws → ℕ → List (List A) → Outcome TrackerError (List (List A))
shuffle_announce_list draws calls [] = ok []
shuffle_announce_list draws calls (tier ∷ tiers) = do
  tier_1 ← knuth_shuffle draws calls tier
  tiers_1 ← shuffle_announce_list draws (calls + (length tier - 1)) tiers
  ok (tier_1 ∷ tiers_1)

-- The rounds of `swap_to_head` from `i` on.
unfoldable pub swap_from : {A : Type 0} → ℕ → ℕ → ℕ → List A → Outcome TrackerError (List A)
swap_from zero n i list = ok list
swap_from (suc rounds) n i list = do
  a ← minus n i
  b ← minus a 1
  list_1 ← swap list a b
  swap_from rounds n (i + 1) list_1

unfoldable pub swap_to_head : {A : Type 0} → List A → ℕ → Outcome TrackerError (List A)
swap_to_head list n = swap_from n n 0 list
