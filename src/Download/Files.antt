-- ===== src/Download/Files.antt =====
-- `store_block`, `store` and `read` of bt/src/base/download.rs, over the files of `async_std`.
pub mod Contents
pub mod Overwrite
mod Buffer
mod Reads
pub mod ReadBack
pub mod Ends
use rust_torrent_client.Prelude.{
  ℕ, zero, suc, ◌+◌, ◌*◌, List, [], ◌∷◌, ◌++◌, Option, none, some, Bytes, u32_mod, u64_mod,
  if◌then◌else◌, length, get_elem?, take, drop, slice, replicate, Outcome, ok, err, or_panic,
  checked, ◌>>=◌,
}
use rust_torrent_client.Stream.{Error, io_error}
use rust_torrent_client.Peer.Actions.{block_size}
use rust_torrent_client.Download.Search.{Ptr, search_ptrs}

-- The file system: a disk, the open files, and the calls that the code makes. `write_all` is a seek
-- and a `write_all`; `read` is a seek and a `read` into a buffer of the length given, and returns
-- the bytes that came; `open_file` opens a path with `create`, `read` and `write`. An I/O error is
-- `none`.
pub record FileSystem : Type 1 where
  pub Disk : Type 0
  pub File : Type 0
  pub write_all : Disk → File → ℕ → Bytes → Option Disk
  pub read : Disk → File → ℕ → ℕ → Option Bytes
  pub rename : Disk → List ℕ → List ℕ → Option Disk
  pub open_file : Disk → List ℕ → Option (Disk × File)

abbrev pub or_io {ℓ} : {A : Type ℓ} → Option A → Outcome Error A
or_io none = err io_error
or_io (some a) = ok a

-- `buffer[ptr..]` begins with the bytes.
abbrev pub patch : Bytes → ℕ → Bytes → Bytes
patch buffer ptr bytes = take ptr buffer ++ (bytes ++ drop (ptr + length bytes) buffer)

module _ (fs : FileSystem) where
  -- `store`
  unfoldable pub store : fs.Disk → fs.File → ℕ → ℕ → ℕ → Bytes → Outcome Error fs.Disk
  store disk file file_ptr block_ptr len bytes = do
    part ← or_panic (slice bytes block_ptr (block_ptr + len))
    or_io (fs.write_all disk file file_ptr part)

  -- The loop of `store_block` over the parts, of which the first lies in the file `i`.
  unfoldable pub store_parts : fs.Disk → List fs.File → ℕ → List Ptr → Bytes → Outcome Error fs.Disk
  store_parts disk files i [] bytes = ok disk
  store_parts disk files i (p ∷ ptrs) bytes = do
    file ← or_panic (get_elem? files i)
    disk_1 ← store disk file p.file_ptr p.data_ptr p.len bytes
    store_parts disk_1 files (i + 1) ptrs bytes

  unfoldable pub store_block :
      fs.Disk → List fs.File → List ℕ → ℕ → ℕ → Bytes → Outcome Error fs.Disk
  store_block disk files file_offsets piece_offset block_index bytes = do
    in_piece ← checked u32_mod (block_index * block_size)
    block_offset ← checked u64_mod (piece_offset + in_piece)
    (i, ptrs) ← search_ptrs file_offsets block_offset (length bytes)
    store_parts disk files i ptrs bytes

  -- A part in the loop of `read`: the bytes that came go into the buffer, how many they are is not
  -- looked at.
  unfoldable pub read_part : fs.Disk → fs.File → ℕ → ℕ → ℕ → Bytes → Outcome Error Bytes
  read_part disk file file_ptr piece_ptr len buffer = do
    part ← or_panic (slice buffer piece_ptr (piece_ptr + len))
    got ← or_io (fs.read disk file file_ptr (length part))
    ok (patch buffer piece_ptr got)

  unfoldable pub read_parts : fs.Disk → List fs.File → ℕ → List Ptr → Bytes → Outcome Error Bytes
  read_parts disk files i [] buffer = ok buffer
  read_parts disk files i (p ∷ ptrs) buffer = do
    file ← or_panic (get_elem? files i)
    buffer_1 ← read_part disk file p.file_ptr p.data_ptr p.len buffer
    read_parts disk files (i + 1) ptrs buffer_1

  unfoldable pub read : fs.Disk → List fs.File → List ℕ → ℕ → ℕ → Outcome Error Bytes
  read disk files file_offsets offset len = do
    (i, ptrs) ← search_ptrs file_offsets offset len
    read_parts disk files i ptrs (replicate len 0)
