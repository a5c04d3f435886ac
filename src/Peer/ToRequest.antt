-- ===== src/Peer/ToRequest.antt =====
-- The `HashMap` of bt/src/peer/peer_connection.rs from a piece and a block index to the block that
-- is still to be requested, as an association list with one entry for a key.
pub mod Laws
use rust_torrent_client.Prelude.{
  ℕ, ◌%◌, List, [], ◌∷◌, Option, none, some, Bool, true, false, ◌==◌, if◌then◌else◌, length,
  get_elem?,
}

-- A value of the map: `(piece_index, block_index, block_length)`.
pub record Block : Type 0 where
  pub piece_index : ℕ
  pub block_index : ℕ
  pub block_length : ℕ

pub record Entry : Type 0 where
  pub key_piece : ℕ
  pub key_block : ℕ
  pub value : Block

abbrev pub ToRequest : Type 0
ToRequest = List Entry

unfoldable pub has_key : Entry → ℕ → ℕ → Bool
has_key e p b = if e.key_piece == p then e.key_block == b else false

unfoldable pub contains_key : ℕ → ℕ → ToRequest → Bool
unfolding has_key
contains_key p b [] = false
contains_key p b (e ∷ m) = if has_key e p b then true else contains_key p b m

unfoldable pub insert : ℕ → ℕ → Block → ToRequest → ToRequest
unfolding has_key
insert p b v [] = record { key_piece = p; key_block = b; value = v } ∷ []
insert p b v (e ∷ m) =
    if has_key e p b
    then record { key_piece = p; key_block = b; value = v } ∷ m
    else e ∷ insert p b v m

unfoldable pub remove : ℕ → ℕ → ToRequest → ToRequest
unfolding has_key
remove p b [] = []
remove p b (e ∷ m) = if has_key e p b then m else e ∷ remove p b m

-- `keys().nth(0)`: a map yields its keys in an order that is not specified, so which entry comes
-- first is an argument.
unfoldable pub first : (ToRequest → ℕ) → ToRequest → Option Entry
first order m = get_elem? m (order m % length m)
