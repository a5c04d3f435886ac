-- ===== src/Download/Files/ReadBack.antt =====
-- `read` returns what the files hold, and so what `store_block` has stored, but for bytes that a read
-- of a file did not give.
use rust_torrent_client.Prelude.{
  ℕ, ◌+◌, ◌-◌, ◌*◌, ◌≤◌, ◌<◌, ◌≡◌, refl, sym, ap, subst, ◌∙◌, List, some, true, Bytes, length,
  get_elem?, get_elem?-some, get_or, replicate, length-replicate, u32_mod, u64_mod, arith, ◌⊎◌, inl,
  inr, ok, Runs, Runs-ok, Runs-bind, Runs-Returns, Runs-weaken,
}
use rust_torrent_client.Peer.Actions.{block_size}
use rust_torrent_client.Download.Search.Offsets.{at, Ordered, locate}
use rust_torrent_client.Download.Search.Cover.{size, search_ptrs-Covers}
use rust_torrent_client.Download.Files.{FileSystem, read, store_block}
use rust_torrent_client.Download.Files.Contents.{in_range, Laws, Separate, CutShort}
use rust_torrent_client.Download.Files.Overwrite.{store_block-Overwrites}
use rust_torrent_client.Download.Files.Reads.{IsByte, IsByte-same, read_parts-Reads}
use rust_torrent_client.Download.Files.Buffer.{get_or-zeros}

module _ (fs : FileSystem) (laws : Laws fs) (offsets : List ℕ) (o : Ordered offsets)
    (files : List fs.File) (open_files : length files + 1 ≡ length offsets) (disk : fs.Disk) where
  -- The bytes stand in the files from the offset `pos` of the torrent on, but for zeros where a
  -- read was cut short.
  abbrev pub Holds : ℕ → Bytes → Type 0
  Holds pos bytes =
      (j : ℕ) (g : fs.File) (q : ℕ)
      → get_elem? files j ≡ some g
      → at offsets j + q < at offsets (j + 1)
      → in_range (at offsets j + q) pos (length bytes) ≡ true
      → IsByte fs laws offsets o files open_files disk pos (length bytes) j g q 0
          (get_or bytes (at offsets j + q - pos) 0)

  module _ (bound : size offsets < u64_mod) where
    -- If the files have less than 2 ^ 64 bytes in all, then `read` of a range that is not empty and
    -- lies inside the files does not panic, and, unless a read fails, it returns as many bytes as
    -- were asked for. Each of them is the one in the file where the torrent has it, or it is 0, and
    -- then a read inside of this file, of bytes of the range, gave fewer bytes than it was asked for
    -- and not this one.
    pub read-Holds :
        (offset len : ℕ)
        → 0 < len
        → offset + len ≤ size offsets
        → Runs
            (λ buffer. (length buffer ≡ len) × Holds offset buffer)
            (read fs disk files offsets offset len)
    unfolding read
    read-Holds offset len some_byte range =
        Runs-bind (Runs-Returns (search_ptrs-Covers offsets o bound offset len some_byte range))
          λ (i, ptrs) covers.
            Runs-weaken
              (read_parts-Reads fs laws offsets o files open_files disk i offset 0 len ptrs
                (replicate len 0) covers (omega (arith, length-replicate {A = ℕ} len 0)))
              λ buffer h.
                let is_len : length buffer ≡ len = h.size ∙ length-replicate {A = ℕ} len 0 in
                (
                  is_len,
                  λ j g q at_j in_j inside.
                      let k = at offsets j + q - offset in
                      let same : 0 + k ≡ k = omega arith in
                      IsByte-same fs laws offsets o files open_files disk offset len offset
                        (length buffer) (omega arith) (omega (arith, is_len)) j g q
                        (get_or-zeros len (0 + k)) (ap (λ m. get_or buffer m 0) same)
                        (h.inside j g q at_j in_j
                          (subst (λ m. in_range (at offsets j + q) offset m ≡ true) is_len inside)),
                )

    -- The byte `k` of a block at the offset `pos` came back as it was stored, or it is 0, and a read
    -- inside of the file in which it lies gave fewer bytes than it was asked for and not this one.
    abbrev pub CameBack : ℕ → Bytes → Bytes → ℕ → Type 0
    CameBack pos bytes buffer k =
        (get_or buffer k 0 ≡ get_or bytes k 0)
        ⊎ ((get_or buffer k 0 ≡ 0)
            × (j : ℕ) × (g : fs.File) × (q : ℕ) × (get_elem? files j ≡ some g)
            × (at offsets j + q ≡ pos + k)
            × CutShort fs laws disk offsets pos (length bytes) j g q)

    -- A block that was stored is read back: if the files are different and of less than 2 ^ 64
    -- bytes in all, the block is not empty, its offset in the piece is a `u32`, and it lies inside
    -- the files, then `read` after a `store_block` that succeeded does not panic and, unless a read
    -- fails, returns as many bytes as were stored. Each of them is the one that was stored, or it is
    -- 0, and then a read inside of its file, of bytes of the block, gave fewer bytes than it was asked
    -- for and not this one.
    pub read-store_block :
        (separate : Separate fs laws files) (before : fs.Disk) (piece_offset block_index : ℕ)
        (bytes : Bytes)
        → 0 < length bytes
        → block_index * block_size < u32_mod
        → piece_offset + block_index * block_size + length bytes ≤ size offsets
        → store_block fs before files offsets piece_offset block_index bytes ≡ ok disk
        → Runs
            (λ buffer.
              (length buffer ≡ length bytes)
              × ((k : ℕ)
                  → k < length bytes
                  → CameBack (piece_offset + block_index * block_size) bytes buffer k))
            (read fs disk files offsets (piece_offset + block_index * block_size) (length bytes))
    read-store_block separate before piece_offset block_index bytes some_byte word range stored =
        let pos = piece_offset + block_index * block_size in
        let over =
          Runs-ok
            (store_block-Overwrites fs laws offsets o files open_files separate bound before
              piece_offset block_index bytes some_byte word range)
            stored in
        Runs-weaken (read-Holds pos (length bytes) some_byte range) λ buffer (len, holds). (
          len,
          λ k inside.
              let (j, before_j, lo, hi) =
                locate offsets o (pos + k) (length offsets - 1) (omega (arith, open_files))
                  (omega arith) in
              let (g, at_j) = get_elem?-some files j (omega (arith, open_files, before_j)) in
              let q = pos + k - at offsets j in
              let in_j : at offsets j + q < at offsets (j + 1) = omega (arith, lo, hi) in
              let here : at offsets j + q - pos ≡ k = omega (arith, lo) in
              let is_stored : get_or bytes k 0 ≡ laws.contents disk g q = ground (
                arith,
                lo,
                inside,
                over j g q at_j in_j,
                ap (λ m. get_or bytes m 0) {x = 0 + (at offsets j + q - pos)} {y = k},
              ) in
              elim (IsByte-same fs laws offsets o files open_files disk pos (length buffer) pos
                (length bytes) (omega arith) (omega (arith, len)) j g q refl
                (ap (λ m. get_or buffer m 0) here)
                (holds j g q at_j in_j (ground (arith, lo, len, inside)))) [
                  | inl is ↦ inl (is ∙ sym is_stored)
                  | inr (zeroed, short) ↦ inr (zeroed, j, g, q, at_j, omega (arith, lo), short)
                ],
        )
