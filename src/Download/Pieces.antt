-- ===== src/Download/Pieces.antt =====
-- `Block` and `Piece` of bt/src/base/download.rs, and `create_pieces`.
pub mod Cut
use rust_torrent_client.Prelude.{
  ℕ, zero, suc, ◌+◌, ◌-◌, ◌*◌, ◌/◌, ◌%◌, List, [], ◌∷◌, Option, Bool, true, false, Bytes, u32_mod,
  u64_mod, leb, ltb, if◌then◌else◌, get_elem?, all, Outcome, ok, err, panic, or_panic, checked,
  minus, ◌>>=◌,
}
use rust_torrent_client.Stream.{Error}
use rust_torrent_client.Peer.Actions.{block_size}

pub record Block : Type 0 where
  pub index : ℕ
  pub length : ℕ
  pub is_completed : Bool

pub record Piece : Type 0 where
  pub length : ℕ
  pub offset : ℕ
  pub hash : Bytes
  pub blocks : List Block
  pub is_completed : Bool

-- The number of blocks is computed in `f64`, which is exact for a `u32`.
abbrev pub num_blocks : ℕ → ℕ
num_blocks length = (length + (block_size - 1)) / block_size

-- The length of a block in the loop of `Piece::new`.
unfoldable pub block_length : ℕ → ℕ → ℕ → Outcome Error ℕ
block_length num length i = do
  last ← minus num 1
  if ltb i last
      then ok block_size
      else (do before ← checked u32_mod (block_size * (last % u32_mod)); minus length before)

-- The loop of `Piece::new`: the rounds left, and the block of the next round.
unfoldable pub new_blocks : ℕ → ℕ → ℕ → ℕ → Outcome Error (List Block)
new_blocks zero num length i = ok []
new_blocks (suc rounds) num length i = do
  len ← block_length num length i
  blocks ← new_blocks rounds num length (i + 1)
  ok (record { index = i % u32_mod; length = len; is_completed = false } ∷ blocks)

-- `Piece::new`
unfoldable pub new : ℕ → ℕ → Bytes → Outcome Error Piece
new length offset hash = do
  blocks ← new_blocks (num_blocks length) (num_blocks length) length 0
  ok (record {
    length = length;
    offset = offset;
    hash = hash;
    blocks = blocks;
    is_completed = false;
  })

unfoldable pub has_block : Piece → ℕ → Outcome Error Bool
has_block piece block_index = do
  b ← or_panic (get_elem? piece.blocks block_index)
  ok b.is_completed

unfoldable pub has_all_blocks : Piece → Bool
has_all_blocks piece = all (λ b. b.is_completed) piece.blocks

unfoldable pub reset_all : List Block → List Block
reset_all [] = []
reset_all (b ∷ blocks) = record b { is_completed = false } ∷ reset_all blocks

unfoldable pub reset_blocks : Piece → Piece
reset_blocks piece = record piece { blocks = reset_all piece.blocks }

-- The length of the piece `i` in the loop of `create_pieces`, whose assertions are about the last
-- piece.
unfoldable pub piece_size : ℕ → ℕ → ℕ → ℕ → ℕ → Outcome Error ℕ
piece_size files_length piece_length num_pieces i offset = do
  last ← minus num_pieces 1
  if ltb i last
      then ok piece_length
      else if leb files_length offset
      then panic
      else if ltb piece_length (files_length - offset)
      then panic
      else ok (files_length - offset)

unfoldable pub create_from : ℕ → ℕ → ℕ → ℕ → List Bytes → ℕ → Outcome Error (List Piece)
create_from zero files_length piece_length num_pieces shas i = ok []
create_from (suc rounds) files_length piece_length num_pieces shas i = do
  offset ← checked u64_mod (i * piece_length)
  size ← piece_size files_length piece_length num_pieces i offset
  sha ← or_panic (get_elem? shas i)
  piece ← new (size % u32_mod) offset sha
  pieces ← create_from rounds files_length piece_length num_pieces shas (i + 1)
  ok (piece ∷ pieces)

-- `create_pieces`: the last three are what `meta_info` says of the torrent.
unfoldable pub create_pieces : ℕ → ℕ → ℕ → List Bytes → Outcome Error (List Piece)
create_pieces files_length piece_length num_pieces shas =
    create_from num_pieces files_length piece_length num_pieces shas 0
