-- ===== src/Download/Store.antt =====
-- `Download` of bt/src/base/download.rs: the task that stores the blocks that arrive, checks the
-- pieces, and serves blocks.
pub mod Renames
pub mod Outcomes
pub mod Counts
pub mod Announced
pub mod Unverified
pub mod Start
use rust_torrent_client.Prelude.{
  ℕ, zero, suc, ◌+◌, ◌-◌, ◌*◌, ◌/◌, List, [], ◌∷◌, ◌++◌, map, Option, none, some, Bool, true, false,
  not, Bytes, u64_mod, leb, ltb, ◌==◌, if◌then◌else◌, length, get_elem?, set, take, drop, slice,
  all, Outcome, ok, err, panic, or_panic, checked, minus, ◌>>=◌,
}
use rust_torrent_client.Stream.{Error, send_error, missing_piece_data}
use rust_torrent_client.Ipc.{Ipc, piece, block_completed, piece_completed, download_completed}
use rust_torrent_client.Events.{
  ManagerEvent, broadcast, file_finish, download, require_data, require_incomplete_blocks,
  require_have_pieces,
}
use rust_torrent_client.Peer.Queue.{RequestMetadata}
use rust_torrent_client.Peer.Actions.{block_size}
use rust_torrent_client.Peer.Handshake.{bytes_eq}
use rust_torrent_client.Download.Search.{Ptr, search_ptrs}
use rust_torrent_client.Download.Pieces.{
  Block, Piece, has_block, has_all_blocks, reset_blocks, create_pieces,
}
use rust_torrent_client.Download.Files
use rust_torrent_client.Download.Files.{FileSystem, or_io, store_block}

-- The suffix ".temp".
abbrev pub temp : Bytes
temp = 46 ∷ 116 ∷ 101 ∷ 109 ∷ 112 ∷ []

-- `sent` is what was sent to the manager so far.
pub record Download (fs : FileSystem) : Type 0 where
  pub pieces : List Piece
  pub file_paths : List Bytes
  pub files : List fs.File
  pub file_offsets : List ℕ
  pub piece_length : ℕ
  pub disk : fs.Disk
  pub sent : List ManagerEvent

pub data Reply : Type 0 where
  data_reply : Bytes → Reply
  blocks_reply : List (ℕ × ℕ) → Reply
  have_reply : List Bool → Reply

-- `blocks[block_index].is_completed = true`
abbrev pub mark_in : List Block → ℕ → Option Block → List Block
mark_in blocks block_index none = blocks
mark_in blocks block_index (some b) = set blocks block_index (record b { is_completed = true })

abbrev pub mark_block : ℕ → Piece → Piece
mark_block block_index p = record p {
  blocks = mark_in p.blocks block_index (get_elem? p.blocks block_index);
}

-- `incomplete_blocks_for_piece` on the blocks.
unfoldable pub incomplete : List Block → List (ℕ × ℕ)
incomplete [] = []
incomplete (b ∷ blocks) =
    let rest = incomplete blocks in if b.is_completed then rest else (b.index, b.length) ∷ rest

-- `file_path.ends_with(".temp")`
unfoldable pub is_temp : Bytes → Bool
is_temp path = if ltb (length path) 5 then false else bytes_eq (drop (length path - 5) path) temp

abbrev pub divide : ℕ → ℕ → Outcome Error ℕ
divide a b = if b == 0 then panic else ok (a / b)

-- The parameters: the file system, the hash, and whether the manager still receives.
module _ (fs : FileSystem) (calculate_sha1 : Bytes → Bytes) (manager_open : Bool) where
  abbrev pub Task : Type 0
  Task = Download fs → Outcome Error (Download fs)

  abbrev pub set_piece : ℕ → Piece → Download fs → Download fs
  set_piece piece_index p d = record d { pieces = set d.pieces piece_index p }

  unfoldable pub send_manager : ManagerEvent → Task
  send_manager e d =
      if manager_open then ok (record d { sent = d.sent ++ e ∷ [] }) else err send_error

  -- `rename_temp_file`
  unfoldable pub rename_temp_file : ℕ → Task
  rename_temp_file file_index d = do
    path ← or_panic (get_elem? d.file_paths file_index)
    if is_temp path
        then (do
          disk_1 ← or_io (fs.rename d.disk path (take (length path - 5) path))
          (disk_2, file) ← or_io (fs.open_file disk_1 (take (length path - 5) path))
          _ ← or_panic (get_elem? d.files file_index)
          send_manager (file_finish file_index (take (length path - 5) path)) (record d {
            disk = disk_2;
            files = set d.files file_index file;
            file_paths = set d.file_paths file_index (take (length path - 5) path);
          }))
        else ok d

  -- The loop body of `verify_file` for a file of the piece.
  unfoldable pub verify_one : ℕ → Task
  verify_one file_index d = do
    begin ← or_panic (get_elem? d.file_offsets file_index)
    low ← divide begin d.piece_length
    end ← or_panic (get_elem? d.file_offsets (file_index + 1))
    last ← minus end 1
    high ← divide last d.piece_length
    contained_pieces ← or_panic (slice d.pieces low (high + 1))
    if all (λ p. p.is_completed) contained_pieces then rename_temp_file file_index d else ok d

  unfoldable pub verify_files : ℕ → List Ptr → Task
  verify_files file_index [] d = ok d
  verify_files file_index (p ∷ ptrs) d = do
    d_1 ← verify_one file_index d
    verify_files (file_index + 1) ptrs d_1

  unfoldable pub verify_file : ℕ → Task
  verify_file piece_index d = do
    p ← or_panic (get_elem? d.pieces piece_index)
    (index, ptrs) ← search_ptrs d.file_offsets p.offset p.length
    verify_files index ptrs d

  -- `verify`: whether the hash of what the files hold is that of the piece.
  unfoldable pub verify : Piece → Download fs → Outcome Error Bool
  verify p d = do
    buffer ← Files.read fs d.disk d.files d.file_offsets p.offset p.length
    ok (bytes_eq p.hash (calculate_sha1 buffer))

  unfoldable pub is_complete : Download fs → Bool
  is_complete d = all (λ p. p.is_completed) d.pieces

  -- `store` from the broadcasts on.
  unfoldable pub announce_piece : ℕ → Task
  announce_piece piece_index d = do
    p ← or_panic (get_elem? d.pieces piece_index)
    if p.is_completed then send_manager (broadcast (piece_completed piece_index)) d else ok d

  unfoldable pub announce_download : Task
  announce_download d =
      if is_complete d then send_manager (broadcast download_completed) d else ok d

  -- `store` from the line on that marks the piece as completed.
  unfoldable pub finish : ℕ → ℕ → Piece → Task
  finish piece_index block_index p d = do
    d_1 ← verify_file piece_index (set_piece piece_index (record p { is_completed = true }) d)
    d_2 ← send_manager (broadcast (block_completed piece_index block_index)) d_1
    d_3 ← announce_piece piece_index d_2
    announce_download d_3

  -- `store` once the bytes are written and the block is marked: `p` is the piece.
  unfoldable pub check_piece : ℕ → ℕ → Piece → Task
  check_piece piece_index block_index p d =
      if has_all_blocks p
      then (do
        valid ← verify p d
        if valid
            then finish piece_index block_index p d
            else ok (set_piece piece_index (reset_blocks (record p { is_completed = false })) d))
      else finish piece_index block_index p d

  unfoldable pub store : ℕ → ℕ → Bytes → Task
  store piece_index block_index bytes d = do
    p ← or_panic (get_elem? d.pieces piece_index)
    had ← has_block p block_index
    if had then ok d else if p.is_completed then ok d else (do
      disk_1 ← store_block fs d.disk d.files d.file_offsets p.offset block_index bytes
      check_piece piece_index block_index (mark_block block_index p) (record d { disk = disk_1 }))

  unfoldable pub retrieve_data : RequestMetadata → Download fs → Outcome Error Bytes
  retrieve_data request d = do
    p ← or_panic (get_elem? d.pieces request.piece_index)
    if p.is_completed
        then (do
          offset ← checked u64_mod (p.offset + request.offset)
          Files.read fs d.disk d.files d.file_offsets offset request.block_length)
        else err missing_piece_data

  unfoldable pub incomplete_blocks_for_piece : ℕ → Download fs → Outcome Error (List (ℕ × ℕ))
  incomplete_blocks_for_piece piece_index d = do
    p ← or_panic (get_elem? d.pieces piece_index)
    if p.is_completed then ok [] else ok (incomplete p.blocks)

  unfoldable pub have_pieces : Download fs → List Bool
  have_pieces d = map (λ p. p.is_completed) d.pieces

  -- One round of `download_loop`, with the reply that it gives. The task that asked is taken to wait
  -- for the reply.
  abbrev pub no_reply : Outcome Error (Download fs) → Outcome Error (Download fs × List Reply)
  no_reply r = do d ← r; ok (d, [])

  unfoldable pub handle_event :
      ManagerEvent → Download fs → Outcome Error (Download fs × List Reply)
  handle_event (download (piece piece_index offset bytes)) d =
      no_reply (store piece_index (offset / block_size) bytes d)
  handle_event (require_data request) d = do
    buffer ← retrieve_data request d
    ok (d, data_reply buffer ∷ [])
  handle_event (require_incomplete_blocks piece_index) d = do
    blocks ← incomplete_blocks_for_piece piece_index d
    ok (d, blocks_reply blocks ∷ [])
  handle_event require_have_pieces d = ok (d, have_reply (have_pieces d) ∷ [])
  handle_event _ d = ok (d, [])

  unfoldable pub download_loop :
      List ManagerEvent → Download fs → Outcome Error (Download fs × List Reply)
  download_loop [] d = ok (d, [])
  download_loop (e ∷ events) d = do
    (d_1, replies) ← handle_event e d
    (d_2, rest) ← download_loop events d_1
    ok (d_2, replies ++ rest)

  -- `download_loop` from its start: the pieces are made from the metadata, of which the length of a
  -- piece, the number of pieces and the hashes are given.
  unfoldable pub start :
      fs.Disk
      → List Bytes
      → List fs.File
      → List ℕ
      → ℕ
      → ℕ
      → List Bytes
      → Outcome Error (Download fs)
  start disk file_paths files file_offsets piece_length num_pieces shas = do
    last ← minus (length file_offsets) 1
    len ← or_panic (get_elem? file_offsets last)
    pieces ← create_pieces len piece_length num_pieces shas
    ok (record {
      pieces = pieces;
      file_paths = file_paths;
      files = files;
      file_offsets = file_offsets;
      piece_length = piece_length;
      disk = disk;
      sent = [];
    })

  unfoldable pub run_download :
      fs.Disk
      → List Bytes
      → List fs.File
      → List ℕ
      → ℕ
      → ℕ
      → List Bytes
      → List ManagerEvent
      → Outcome Error (Download fs × List Reply)
  run_download disk file_paths files file_offsets piece_length num_pieces shas events = do
    d ← start disk file_paths files file_offsets piece_length num_pieces shas
    download_loop events d
