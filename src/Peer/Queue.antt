-- ===== src/Peer/Queue.antt =====
-- `RequestQueue` of bt/src/peer/peer_connection.rs: the requests that wait for an answer.
pub mod Laws
use rust_torrent_client.Prelude.{
  ℕ, zero, suc, List, [], ◌∷◌, ◌++◌, Option, none, some, Bool, true, false, ◌&&◌, not, ◌==◌, ltb,
  if◌then◌else◌, length, get_elem?,
}
use mathlib.Core.Option

pub record RequestMetadata : Type 0 where
  pub piece_index : ℕ
  pub block_index : ℕ
  pub offset : ℕ
  pub block_length : ℕ

pub record RequestQueue : Type 0 where
  pub requests : List RequestMetadata

-- `RequestMetadata::matches`
unfoldable pub matches : RequestMetadata → ℕ → ℕ → Bool
matches r piece_index block_index =
    if r.piece_index == piece_index then r.block_index == block_index else false

-- `Iterator::position` on the requests, and `Vec::remove`.
unfoldable pub find_position : ℕ → ℕ → List RequestMetadata → Option ℕ
find_position piece_index block_index [] = none
find_position piece_index block_index (r ∷ rs) =
    if matches r piece_index block_index
    then some 0
    else Option.map suc (find_position piece_index block_index rs)

unfoldable pub remove_at : ℕ → List RequestMetadata → List RequestMetadata
remove_at i [] = []
remove_at zero (r ∷ rs) = rs
remove_at (suc i) (r ∷ rs) = r ∷ remove_at i rs

abbrev pub new : RequestQueue
new = record { requests = [] }

unfoldable pub position : RequestQueue → ℕ → ℕ → Option ℕ
position q piece_index block_index = find_position piece_index block_index q.requests

unfoldable pub has : RequestQueue → ℕ → ℕ → Bool
unfolding position
has q piece_index block_index = elim (position q piece_index block_index) [
  | none ↦ false
  | some _ ↦ true
]

unfoldable pub add : RequestQueue → ℕ → ℕ → ℕ → ℕ → RequestQueue × Bool
add q piece_index block_index offset block_length =
    if not (has q piece_index block_index)
    then (
      record {
        requests =
            q.requests
            ++ record {
              piece_index = piece_index;
              block_index = block_index;
              offset = offset;
              block_length = block_length;
            }
              ∷ [];
      },
      true,
    )
    else (q, false)

unfoldable pub pop_front : List RequestMetadata → RequestQueue × Option RequestMetadata
pop_front [] = (record { requests = [] }, none)
pop_front (r ∷ rs) = (record { requests = rs }, some r)

-- The queue after `pop`, and what it returns.
unfoldable pub pop : RequestQueue → RequestQueue × Option RequestMetadata
unfolding pop_front
pop q = pop_front q.requests

unfoldable pub remove : RequestQueue → ℕ → ℕ → RequestQueue × Option RequestMetadata
unfolding position
remove q piece_index block_index = elim (position q piece_index block_index) [
  | some i ↦ (record { requests = remove_at i q.requests }, get_elem? q.requests i)
  | none ↦ (q, none)
]

unfoldable pub len : RequestQueue → ℕ
len q = length q.requests
