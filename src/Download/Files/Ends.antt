-- ===== src/Download/Files/Ends.antt =====
-- `store_block` and `read` end, whatever the offsets of the files.
use rust_torrent_client.Prelude.{
  ℕ, ◌+◌, ◌*◌, ◌≡◌, refl, List, [], ◌∷◌, Option, some, none, Bytes, u32_mod, u64_mod, length,
  get_elem?, slice, replicate, Outcome, ok, Ensures, holds, failed, panicked, Ensures-bind,
  Ensures-checked,
}
use rust_torrent_client.Stream.{Error}
use rust_torrent_client.Peer.Actions.{block_size}
use rust_torrent_client.Download.Search.{Ptr}
use rust_torrent_client.Download.Search.Ends.{Ends, Ends-or_panic, search_ptrs-Ends}
use rust_torrent_client.Download.Files.{
  FileSystem, or_io, store, store_parts, store_block, read_part, read_parts, read,
}

pub Ends-or_io {ℓ} : {A : Type ℓ} (o : Option A) → Ends (or_io o)
Ends-or_io none = failed
Ends-or_io (some a) = holds tt

-- The value of a run that ends.
pub Ends-value {ℓ} : {A : Type ℓ} {r : Outcome Error A} → Ends r → Ensures (λ a. r ≡ ok a) r
Ends-value (holds h) = holds refl
Ends-value failed = failed
Ends-value panicked = panicked

module _ (fs : FileSystem) where
  store_parts-Ends :
      (disk : fs.Disk) (files : List fs.File) (i : ℕ) (ptrs : List Ptr) (bytes : Bytes)
      → Ends (store_parts fs disk files i ptrs bytes)
  unfolding store_parts store
  store_parts-Ends disk files i [] bytes = holds tt
  store_parts-Ends disk files i (p ∷ ptrs) bytes =
      Ensures-bind (Ends-or_panic (get_elem? files i)) λ file _.
        Ensures-bind
          (Ensures-bind (Ends-or_panic (slice bytes p.data_ptr (p.data_ptr + p.len)))
            λ part _. Ends-or_io (fs.write_all disk file p.file_ptr part))
          λ disk_1 _. store_parts-Ends disk_1 files (i + 1) ptrs bytes

  pub store_block-Ends :
      (disk : fs.Disk) (files : List fs.File) (offsets : List ℕ) (piece_offset block_index : ℕ)
      (bytes : Bytes)
      → Ends (store_block fs disk files offsets piece_offset block_index bytes)
  unfolding store_block
  store_block-Ends disk files offsets piece_offset block_index bytes =
      Ensures-bind (Ensures-checked u32_mod (block_index * block_size)) λ in_piece _.
        Ensures-bind (Ensures-checked u64_mod (piece_offset + in_piece)) λ offset _.
          Ensures-bind (search_ptrs-Ends offsets offset (length bytes))
            λ (i, ptrs) _. store_parts-Ends disk files i ptrs bytes

  read_parts-Ends :
      (disk : fs.Disk) (files : List fs.File) (i : ℕ) (ptrs : List Ptr) (buffer : Bytes)
      → Ends (read_parts fs disk files i ptrs buffer)
  unfolding read_parts read_part
  read_parts-Ends disk files i [] buffer = holds tt
  read_parts-Ends disk files i (p ∷ ptrs) buffer =
      Ensures-bind (Ends-or_panic (get_elem? files i)) λ file _.
        Ensures-bind {P = λ _. Unit {0}}
          (Ensures-bind (Ends-or_panic (slice buffer p.data_ptr (p.data_ptr + p.len))) λ part _.
            Ensures-bind (Ends-or_io (fs.read disk file p.file_ptr (length part)))
              λ got _. holds tt)
          λ buffer_1 _. read_parts-Ends disk files (i + 1) ptrs buffer_1

  pub read-Ends :
      (disk : fs.Disk) (files : List fs.File) (offsets : List ℕ) (offset len : ℕ)
      → Ends (read fs disk files offsets offset len)
  unfolding read
  read-Ends disk files offsets offset len =
      Ensures-bind (search_ptrs-Ends offsets offset len)
        λ (i, ptrs) _. read_parts-Ends disk files i ptrs (replicate len 0)
