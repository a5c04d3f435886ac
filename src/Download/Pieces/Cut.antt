-- ===== src/Download/Pieces/Cut.antt =====
-- How a torrent is cut into pieces, and a piece into blocks.
use native.Mathlib.Nat.{mul-le-mul_right}
use rust_torrent_client.Prelude.{
  ℕ, zero, suc, ◌+◌, ◌-◌, ◌*◌, ◌%◌, ◌≤◌, ◌<◌, ◌≡◌, refl, List, [], ◌∷◌, some, false, Bytes, u32_mod,
  u64_mod, leb, ltb, ltb→lt, min, if◌then◌else◌, length, get_elem?, get_elem?-some, arith, Returns,
  returned, Returns-bind, Returns-if, Returns-minus, Returns-checked, Returns-or_panic,
  Returns-weaken,
}
use rust_torrent_client.Peer.Actions.{block_size}
use rust_torrent_client.Download.Pieces
use rust_torrent_client.Download.Pieces.{
  Block, Piece, num_blocks, block_length, new_blocks, piece_size, create_from, create_pieces,
}

abbrev pub block_lengths : List Block → ℕ
block_lengths [] = 0
block_lengths (b ∷ blocks) = b.length + block_lengths blocks

abbrev pub piece_lengths : List Piece → ℕ
piece_lengths [] = 0
piece_lengths (p ∷ pieces) = p.length + piece_lengths pieces

-- The blocks from `i` on of a piece of `size` bytes.
pub data Blocks (size : ℕ) : ℕ → List Block → Type 0 where
  done : {i : ℕ} → size ≤ block_size * i → Blocks size i []
  next :
      {i : ℕ} {b : Block} {blocks : List Block}
      → block_size * i < size
      → b.index ≡ i
      → b.length ≡ min block_size (size - block_size * i)
      → b.is_completed ≡ false
      → Blocks size (i + 1) blocks
      → Blocks size i (b ∷ blocks)

-- A piece that was made and has no data yet: its blocks are as long as a block can be, but the last
-- one, and they follow each other to the end of the piece.
pub record IsFresh (p : Piece) : Type 0 where
  pub cut : Blocks p.length 0 p.blocks
  pub sum : block_lengths p.blocks ≡ p.length
  pub empty : p.is_completed ≡ false

Blocks-sum :
    {size i : ℕ} {blocks : List Block}
    → Blocks size i blocks
    → block_size * i + block_lengths blocks
      ≡ (if ltb size (block_size * i) then block_size * i else size)
Blocks-sum (done h) = ground arith
Blocks-sum (next h is_index is_length fresh rest) = ground (arith, is_length, Blocks-sum rest)

module _ (size : ℕ) (small : size < u32_mod) where
  block_length-Returns :
      (i : ℕ)
      → block_size * i < size
      → Returns
          (λ len. len ≡ min block_size (size - block_size * i))
          (block_length (num_blocks size) size i)
  unfolding block_length
  block_length-Returns i inside =
      Returns-bind (Returns-minus (num_blocks size) 1 (omega arith)) λ last is_last.
        Returns-if (ltb i last) (λ before_last. returned (ground arith))
          (λ at_last.
            Returns-bind
              (Returns-checked u32_mod (block_size * (last % u32_mod)) (omega (arith, is_last)))
              λ before is_before.
                Returns-weaken (Returns-minus size before (omega (arith, is_last, is_before)))
                  λ len is_len. ground (arith, at_last, is_len, is_before, is_last))

  new_blocks-Blocks :
      (rounds i : ℕ)
      → rounds + i ≡ num_blocks size
      → Returns (Blocks size i) (new_blocks rounds (num_blocks size) size i)
  unfolding new_blocks
  new_blocks-Blocks zero i count = returned (done (omega arith))
  new_blocks-Blocks (suc rounds) i count =
      Returns-bind (block_length-Returns i (omega arith)) λ len is_len.
        Returns-bind (new_blocks-Blocks rounds (i + 1) (omega arith))
          λ blocks rest. returned (next (omega arith) (omega arith) is_len refl rest)

  pub new-IsFresh :
      (offset : ℕ) (hash : Bytes)
      → Returns
          (λ p. IsFresh p × (p.length ≡ size) × (p.offset ≡ offset) × (p.hash ≡ hash))
          (Pieces.new size offset hash)
  unfolding Pieces.new
  new-IsFresh offset hash =
      Returns-bind (new_blocks-Blocks (num_blocks size) 0 (omega arith)) λ blocks cut.
        returned (
          record { cut = cut; sum = ground (arith, Blocks-sum cut); empty = refl },
          refl,
          refl,
          refl,
        )

-- The pieces from `i` on of a torrent of `total` bytes.
pub data Tiles (total piece_length : ℕ) (shas : List Bytes) : ℕ → List Piece → Type 0 where
  done : {i : ℕ} → total ≤ i * piece_length → Tiles total piece_length shas i []
  next :
      {i : ℕ} {p : Piece} {pieces : List Piece}
      → i * piece_length < total
      → p.offset ≡ i * piece_length
      → p.length ≡ min piece_length (total - i * piece_length)
      → get_elem? shas i ≡ some p.hash
      → IsFresh p
      → Tiles total piece_length shas (i + 1) pieces
      → Tiles total piece_length shas i (p ∷ pieces)

next_start : (i n : ℕ) → (i + 1) * n ≡ i * n + n
next_start i n = omega arith

Tiles-sum :
    {total n : ℕ} {shas : List Bytes} {i : ℕ} {pieces : List Piece}
    → Tiles total n shas i pieces
    → i * n + piece_lengths pieces ≡ (if ltb total (i * n) then i * n else total)
Tiles-sum (done h) = ground arith
Tiles-sum {n = n} {i = i} (next h at len sha fresh rest) =
    ground (arith, len, Tiles-sum rest, next_start i n)

module _ (total piece_length num : ℕ) (shas : List Bytes) (few : total < u64_mod)
    (small : piece_length < u32_mod) (hashes : length shas ≡ num)
    (past : total ≤ num * piece_length) (needed : (num - 1) * piece_length < total) where
  starts_inside : (i : ℕ) → i < num → i * piece_length < total
  starts_inside i inside =
      omega (arith, needed, mul-le-mul_right {m = i} {n = num - 1} piece_length (omega arith))

  -- After a piece that is not the last one comes another, and the last one reaches the end.
  step : (i : ℕ) → suc i * piece_length ≡ i * piece_length + piece_length
  step i = omega arith

  reaches_end : (i : ℕ) → i < num → num ≤ suc i → total ≤ i * piece_length + piece_length
  reaches_end i inside at_last =
      let e : num ≡ suc i = omega arith in omega (arith, step i, rw e at past)

  piece_size-Returns :
      (i offset : ℕ)
      → i < num
      → offset ≡ i * piece_length
      → Returns
          (λ n. n ≡ min piece_length (total - i * piece_length))
          (piece_size total piece_length num i offset)
  unfolding piece_size
  piece_size-Returns i offset inside is_offset =
      let starts = starts_inside i inside in
      Returns-bind (Returns-minus num 1 (omega arith)) λ last is_last.
        Returns-if (ltb i last)
          (λ before_last. returned (
            omega (
              arith,
              step i,
              starts_inside (suc i) (omega (arith, is_last, ltb→lt i last before_last)),
            )))
          (λ at_last.
            let ends = reaches_end i inside (ground (arith, is_last, at_last)) in
            Returns-if (leb total offset) (λ bad. absurd (ground arith))
              λ _.
                Returns-if (ltb piece_length (total - offset))
                  (λ bad. absurd (ground (arith, ends, bad))) λ _. returned (omega (arith, ends)))

  create_from-Tiles :
      (rounds i : ℕ)
      → rounds + i ≡ num
      → Returns (Tiles total piece_length shas i) (create_from rounds total piece_length num shas i)
  unfolding create_from
  create_from-Tiles zero i count = returned (done (let e : num ≡ i = omega arith in rw e at past))
  create_from-Tiles (suc rounds) i count =
      let starts = starts_inside i (omega arith) in
      let (sha, sha_at) = get_elem?-some shas i (omega (arith, hashes)) in
      Returns-bind (Returns-checked u64_mod (i * piece_length) (omega arith)) λ offset is_offset.
        Returns-bind (piece_size-Returns i offset (omega arith) is_offset) λ size is_size.
          Returns-bind (Returns-or_panic sha_at) λ sha' is_sha.
            Returns-bind (new-IsFresh (size % u32_mod) (omega arith) offset sha')
              λ piece (fresh, len, at, hash).
                Returns-bind (create_from-Tiles rounds (i + 1) (omega arith)) λ pieces rest.
                  returned (next starts (cc) (omega (arith, len, is_size)) (cc) fresh rest)

  -- If there are as many hashes as pieces, the files have less than 2 ^ 64 bytes and a piece less
  -- than 2 ^ 32, and the files end in the last piece, then `create_pieces` does not panic: the
  -- pieces follow each other from the start to the end of the files, all but the last of the piece
  -- length, each with its hash and cut into blocks that are not completed and add up to the piece,
  -- and the pieces add up to the files.
  pub create_pieces-Tiles :
      Returns
        (λ pieces. Tiles total piece_length shas 0 pieces × (piece_lengths pieces ≡ total))
        (create_pieces total piece_length num shas)
  unfolding create_pieces
  create_pieces-Tiles =
      Returns-weaken (create_from-Tiles num 0 (omega arith))
        λ pieces tiles. (tiles, ground (arith, Tiles-sum tiles))
