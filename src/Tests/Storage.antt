-- ===== src/Tests/Storage.antt =====
-- The storage of bt/src/base/download.rs at concrete inputs: two pieces of 9 and 6 bytes over three
-- files.
use rust_torrent_client.Prelude.{
  ℕ, zero, suc, ◌+◌, ◌-◌, ◌⊎◌, ◌*◌, ◌<◌, ◌≤◌, ◌≡◌, refl, [], ◌∷◌, List, some, true, false, Bytes,
  ok, arith, length, u64_mod, Returns, Runs, Ensures, get_elem?, replicate,
}
use rust_torrent_client.Ipc.{piece}
use rust_torrent_client.Events.{download, require_have_pieces}
use rust_torrent_client.Peer.Actions.{block_size}
use rust_torrent_client.Download.Search.{
  file_offsets, offsets_from, search_arm, search_round, search_loop, search_index, ptr_round,
  ptr_loop, search_ptrs,
}
use rust_torrent_client.Download.Search.Offsets.{file_offsets-Ordered, Ordered, at}
use rust_torrent_client.Download.Search.Index.{Finds, InFile, search_index-Finds}
use rust_torrent_client.Download.Search.Cover.{Covers, size, search_ptrs-Covers}
use rust_torrent_client.Download.Pieces.{Piece, create_pieces, has_block, has_all_blocks}
use rust_torrent_client.Download.Pieces.Cut.{Tiles, piece_lengths, create_pieces-Tiles}
use rust_torrent_client.Download.Files.{store_parts, store_block, read}
use rust_torrent_client.Download.Files
use rust_torrent_client.Download.Files.Overwrite.{Overwrites, store_block-Overwrites}
use rust_torrent_client.Download.Files.ReadBack.{Holds, CameBack, read-Holds, read-store_block}
use rust_torrent_client.Download.Store.{Download, mark_block, store, download_loop, run_download}
use rust_torrent_client.Download.Store.Start.{run_download-Announced}
use rust_torrent_client.Download.Store.Outcomes.{Stored, store-Stored}
use rust_torrent_client.Download.Store.Counts.{completed_at}
use rust_torrent_client.Download.Store.Announced.{Announced, Grows, download_loop-Announced}
use rust_torrent_client.Download.Store.Unverified.{Closed, store-Closed}
use rust_torrent_client.Tests.Disk.{
  Disk, empty, overwrite, fs, laws, lens, offsets, ordered, files, open_files, separate,
}

file_offsets-Ordered_example :
    Ordered offsets
    × (length offsets ≡ 4)
    × (at offsets 3 ≡ 15)
    × ((i : ℕ) → i < 3 → at offsets (suc i) ≡ at offsets i + at lens i)
file_offsets-Ordered_example = file_offsets-Ordered lens

search_index-Finds_example :
    Returns
      (λ i.
        Finds offsets 12 i × ((at offsets (length offsets - 1) ≤ 12) ⊎ InFile offsets ordered 12 i))
      (search_index offsets 12)
search_index-Finds_example = search_index-Finds offsets ordered 12

bound : size offsets < u64_mod
unfolding offsets_from
bound = omega arith

within : 4 + 8 ≤ size offsets
unfolding offsets_from
within = omega arith

search_ptrs-Covers_example :
    Returns (λ (i, ps). Covers offsets i 4 0 8 ps) (search_ptrs offsets 4 8)
search_ptrs-Covers_example = search_ptrs-Covers offsets ordered bound 4 8 (omega arith) within

abbrev hashes : List Bytes
hashes = replicate 20 1 ∷ replicate 20 2 ∷ []

create_pieces-Tiles_example :
    Returns
      (λ pieces. Tiles 15 9 hashes 0 pieces × (piece_lengths pieces ≡ 15))
      (create_pieces 15 9 2 hashes)
create_pieces-Tiles_example =
    create_pieces-Tiles 15 9 2 hashes (omega arith) (omega arith) refl (omega arith) (omega arith)

-- A block that begins in the first file and ends in the third.
abbrev block : Bytes
block = 11 ∷ 12 ∷ 13 ∷ 14 ∷ 15 ∷ 16 ∷ 17 ∷ 18 ∷ []

in_files : 4 + 0 * block_size + length block ≤ size offsets
unfolding offsets_from
in_files = omega arith

store_block-Overwrites_example :
    Runs
      (λ disk'.
        Overwrites fs laws offsets ordered files open_files separate empty disk'
          (4 + 0 * block_size)
          8
          0
          block)
      (store_block fs empty files offsets 4 0 block)
store_block-Overwrites_example =
    store_block-Overwrites fs laws offsets ordered files open_files separate bound empty 4 0 block
      (omega arith) (omega arith) in_files

read-Holds_example :
    Runs
      (λ buffer.
        (length buffer ≡ 8) × Holds fs laws offsets ordered files open_files empty 4 buffer)
      (read fs empty files offsets 4 8)
read-Holds_example =
    read-Holds fs laws offsets ordered files open_files empty bound 4 8 (omega arith) within

-- The disk once the block is stored.
abbrev stored : Disk
stored =
    overwrite
      (overwrite (overwrite empty (1 ∷ []) 4 (11 ∷ 12 ∷ 13 ∷ 14 ∷ 15 ∷ 16 ∷ [])) (2 ∷ []) 0 [])
      (3 ∷ []) 0 (17 ∷ 18 ∷ [])

store_block_test : store_block fs empty files offsets 4 0 block ≡ ok stored
unfolding store_block search_ptrs search_index search_loop search_round search_arm ptr_loop
    ptr_round store_parts Files.store offsets_from
store_block_test = refl

read-store_block_example :
    Runs
      (λ buffer.
        (length buffer ≡ length block)
        × ((k : ℕ)
            → k < length block
            → CameBack fs laws offsets ordered files open_files stored bound
                (4 + 0 * block_size)
                block
                buffer
                k))
      (read fs stored files offsets (4 + 0 * block_size) 8)
read-store_block_example =
    read-store_block fs laws offsets ordered files open_files stored bound separate empty 4 0 block
      (omega arith) (omega arith) in_files store_block_test

-- A piece of two blocks, of which none is there, and a hash that nothing has.
abbrev first_piece : Piece
first_piece = record {
  length = 16_388;
  offset = 0;
  hash = [];
  blocks =
      record { index = 0; length = 16_384; is_completed = false }
      ∷ record { index = 1; length = 4; is_completed = false }
      ∷ [];
  is_completed = false;
}

abbrev task : Download fs
task = record {
  pieces = first_piece ∷ [];
  file_paths = (1 ∷ []) ∷ [];
  files = (1 ∷ []) ∷ [];
  file_offsets = file_offsets (16_388 ∷ []);
  piece_length = 32_768;
  disk = empty;
  sent = [];
}

abbrev sha1 : Bytes → Bytes
sha1 bytes = replicate 20 9

lacks : has_block first_piece 0 ≡ ok false
unfolding has_block
lacks = refl

lacks_another : has_all_blocks (mark_block 0 first_piece) ≡ false
unfolding has_all_blocks
lacks_another = refl

store-Closed_example :
    Ensures (Closed fs sha1 true 0 first_piece) (store fs sha1 true 0 0 (7 ∷ []) task)
store-Closed_example =
    store-Closed fs sha1 true 0 0 (7 ∷ []) task first_piece refl refl lacks lacks_another

store-Stored_example :
    Ensures
      (λ d'.
        (p : Piece) × (get_elem? task.pieces 0 ≡ some p)
        × Stored fs sha1 true 0 1 (1 ∷ 2 ∷ 3 ∷ 4 ∷ []) p task d')
      (store fs sha1 true 0 1 (1 ∷ 2 ∷ 3 ∷ 4 ∷ []) task)
store-Stored_example = store-Stored fs sha1 true 0 1 (1 ∷ 2 ∷ 3 ∷ 4 ∷ []) task

task-Announced : Announced fs task
task-Announced = record { each_piece = each; whole = refl }
  where
    each : (i : ℕ) → 0 ≡ completed_at i task.pieces
    each zero = refl
    each (suc i) = refl

download_loop-Announced_example :
    Ensures
      (λ (d', _). Announced fs d' × Grows fs task d')
      (download_loop fs sha1 true
        (download (piece 0 16_384 (1 ∷ 2 ∷ 3 ∷ 4 ∷ [])) ∷ require_have_pieces ∷ [])
        task)
download_loop-Announced_example =
    download_loop-Announced fs sha1 true
      (download (piece 0 16_384 (1 ∷ 2 ∷ 3 ∷ 4 ∷ [])) ∷ require_have_pieces ∷ []) task
      task-Announced

abbrev temp_path : Bytes
temp_path = 97 ∷ 46 ∷ 116 ∷ 101 ∷ 109 ∷ 112 ∷ []

run_download-Announced_example :
    Ensures
      (λ (d, _). Announced fs d)
      (run_download fs sha1 true empty
        (temp_path ∷ [])
        ((1 ∷ []) ∷ [])
        (file_offsets (16_388 ∷ []))
        16_388
        1
        (replicate 20 9 ∷ [])
        (download (piece 0 0 (7 ∷ [])) ∷ []))
run_download-Announced_example =
    run_download-Announced fs sha1 true empty (temp_path ∷ []) ((1 ∷ []) ∷ [])
      (file_offsets (16_388 ∷ [])) 16_388 1 (replicate 20 9 ∷ [])
      (download (piece 0 0 (7 ∷ [])) ∷ []) (omega arith)
