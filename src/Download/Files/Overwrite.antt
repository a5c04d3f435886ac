-- ===== src/Download/Files/Overwrite.antt =====
-- `store_block` overwrites a range of the torrent, whatever the files it lies in.
use rust_torrent_client.Prelude.{
  ℕ, zero, suc, ◌+◌, ◌-◌, ◌*◌, ◌≤◌, ◌<◌, ◌≡◌, refl, sym, ap, subst, ◌∙◌, List, [], ◌∷◌, some, Bytes,
  if◌then◌else◌, length, get_elem?, get_elem?-some, get_elem?-lt, get_or, take, drop, slice,
  length-take, length-drop, u32_mod, u64_mod, arith, Runs, ran, Runs-bind, Runs-Returns,
  Runs-weaken, Returns-or_panic, Returns-checked,
}
use rust_torrent_client.Peer.Actions.{block_size}
use rust_torrent_client.Download.Search.{Ptr}
use rust_torrent_client.Download.Search.Offsets.{at, Ordered, apart}
use rust_torrent_client.Download.Search.Cover.{Covers, last, more, size, search_ptrs-Covers}
use rust_torrent_client.Download.Files.{FileSystem, store, store_parts, store_block}
use rust_torrent_client.Download.Files.Contents.{in_range, Laws, Separate, Runs-or_io}

pub get_or-take : (n k : ℕ) (xs : Bytes) → k < n → get_or (take n xs) k 0 ≡ get_or xs k 0
get_or-take zero k xs h = absurd (omega arith)
get_or-take (suc n) k [] h = refl
get_or-take (suc n) zero (x ∷ xs) h = refl
get_or-take (suc n) (suc k) (x ∷ xs) h = get_or-take n k xs (omega arith)

pub get_or-drop : (n k : ℕ) (xs : Bytes) → get_or (drop n xs) k 0 ≡ get_or xs (n + k) 0
get_or-drop zero k xs = ap (λ m. get_or xs m 0) {x = k} {y = 0 + k} (omega arith)
get_or-drop (suc n) k [] = refl
get_or-drop (suc n) k (x ∷ xs) =
    get_or-drop n k xs
    ∙ ap (λ m. get_or (x ∷ xs) m 0) {x = suc (n + k)} {y = suc n + k} (omega arith)

-- A part of the data, where it is in bounds.
pub slice-part :
    (bytes : Bytes) (lo n : ℕ)
    → lo + n ≤ length bytes
    → (part : Bytes) × (slice bytes lo (lo + n) ≡ some part)
      × (length part ≡ n)
      × ((k : ℕ) → k < n → get_or part k 0 ≡ get_or bytes (lo + k) 0)
slice-part bytes lo n h = (
  take (lo + n - lo) (drop lo bytes),
  ground arith,
  omega (arith, length-take (lo + n - lo) (drop lo bytes), length-drop lo bytes),
  λ k inside. get_or-take (lo + n - lo) k (drop lo bytes) (omega arith) ∙ get_or-drop lo k bytes,
)

module _ (fs : FileSystem) (laws : Laws fs) (offsets : List ℕ) (o : Ordered offsets)
    (files : List fs.File) (open_files : length files + 1 ≡ length offsets)
    (separate : Separate fs laws files) where
  -- In every file, each byte of the `n` bytes of the torrent from `pos` on is the one of `bytes`
  -- from `d` on, and the others are as they were.
  abbrev pub Overwrites : fs.Disk → fs.Disk → ℕ → ℕ → ℕ → Bytes → Type 0
  Overwrites disk disk' pos n d bytes =
      (j : ℕ) (g : fs.File) (q : ℕ)
      → get_elem? files j ≡ some g
      → at offsets j + q < at offsets (j + 1)
      → laws.contents disk' g q ≡ (
          if in_range (at offsets j + q) pos n
          then get_or bytes (d + (at offsets j + q - pos)) 0
          else laws.contents disk g q)

  store-Overwrites :
      (disk : fs.Disk) (i : ℕ) (f : fs.File) (ptr d n : ℕ) (bytes : Bytes)
      → get_elem? files i ≡ some f
      → i + 1 < length offsets
      → at offsets i + ptr + n ≤ at offsets (i + 1)
      → d + n ≤ length bytes
      → Runs
          (λ disk'. Overwrites disk disk' (at offsets i + ptr) n d bytes)
          (store fs disk f ptr d n bytes)
  unfolding store
  store-Overwrites disk i f ptr d n bytes file inside fits enough =
      let (part, is_slice, len, same) = slice-part bytes d n enough in
      Runs-bind (Runs-Returns (Returns-or_panic is_slice)) λ part' is_part.
        Runs-or_io (fs.write_all disk f ptr part') λ disk' written. λ j g q at_j in_j. ground (
          arith,
          laws.written disk disk' f g ptr q part' written,
          separate i j f g file at_j,
          is_part,
          ap length is_part,
          len,
          ap (at offsets) {x = i} {y = j},
          same (q - ptr),
          ap (λ m. get_or bytes (d + m) 0) {x = q - ptr}
              {y = at offsets j + q - (at offsets i + ptr)},
          ap (λ p. get_or p (q - ptr) 0) is_part,
          apart offsets o i j (at offsets j + q) inside
              (omega (arith, open_files, get_elem?-lt files j g at_j)),
        )

  Overwrites-at :
      (d₀ d₁ : fs.Disk) (bytes : Bytes) {pos pos' n n' d d' : ℕ}
      → pos ≡ pos'
      → n ≡ n'
      → d ≡ d'
      → Overwrites d₀ d₁ pos n d bytes
      → Overwrites d₀ d₁ pos' n' d' bytes
  Overwrites-at d₀ d₁ bytes {pos} {pos'} {n} {n'} {d} {d'} e_pos e_n e_d h =
      subst (λ x. Overwrites d₀ d₁ x n' d' bytes) e_pos
        (subst (λ x. Overwrites d₀ d₁ pos x d' bytes) e_n
          (subst (λ x. Overwrites d₀ d₁ pos n x bytes) e_d h))

  -- The later parts overwrite what lies behind the first one.
  Overwrites-trans :
      (d₀ d₁ d₂ : fs.Disk) (pos d m n : ℕ) (bytes : Bytes)
      → Overwrites d₀ d₁ pos m d bytes
      → Overwrites d₁ d₂ (pos + m) n (d + m) bytes
      → Overwrites d₀ d₂ pos (m + n) d bytes
  Overwrites-trans d₀ d₁ d₂ pos d m n bytes h k j g q at_j in_j = ground (
    arith,
    h j g q at_j in_j,
    k j g q at_j in_j,
    ap (λ x. get_or bytes x 0) {x = d + m + (at offsets j + q - (pos + m))}
        {y = d + (at offsets j + q - pos)},
  )

  store_parts-Overwrites :
      (disk : fs.Disk) (i pos d n : ℕ) (ptrs : List Ptr) (bytes : Bytes)
      → Covers offsets i pos d n ptrs
      → d + n ≤ length bytes
      → Runs (λ disk'. Overwrites disk disk' pos n d bytes) (store_parts fs disk files i ptrs bytes)
  unfolding store_parts
  store_parts-Overwrites disk i pos d n _ bytes (last {p = p} inside is_d is_pos is_n fits) enough =
      let (f, file) = get_elem?-some files i (omega (arith, open_files)) in
      Runs-bind (Runs-Returns (Returns-or_panic file)) λ f' is_f.
        Runs-bind
          (store-Overwrites disk i f' p.file_ptr p.data_ptr p.len bytes (file ∙ ap some (sym is_f))
            inside (omega (arith, is_pos, is_n, fits)) (omega (arith, is_d, is_n)))
          λ disk' h. ran (Overwrites-at disk disk' bytes is_pos is_n is_d h)
  store_parts-Overwrites disk i pos d n _ bytes
        (more {rest = rest} {p = p} {ps = ps} inside is_d is_pos is_sum ends covers) enough =
      let (f, file) = get_elem?-some files i (omega (arith, open_files)) in
      Runs-bind (Runs-Returns (Returns-or_panic file)) λ f' is_f.
        Runs-bind
          (store-Overwrites disk i f' p.file_ptr p.data_ptr p.len bytes (file ∙ ap some (sym is_f))
            inside (omega (arith, is_pos, ends)) (omega (arith, is_d, is_sum)))
          λ disk_1 h.
            Runs-weaken
              (store_parts-Overwrites disk_1 (i + 1) (at offsets (i + 1)) (d + p.len) rest ps bytes
                covers (omega (arith, is_sum)))
              λ disk_2 k. Overwrites-at disk disk_2 bytes refl is_sum refl (
                Overwrites-trans disk disk_1 disk_2 pos d p.len rest bytes
                  (Overwrites-at disk disk_1 bytes is_pos refl is_d h)
                  (Overwrites-at disk_1 disk_2 bytes (sym ends) refl refl k))

  module _ (bound : size offsets < u64_mod) where
    -- On open files that are different and of less than 2 ^ 64 bytes in all, if a block is not
    -- empty, its offset in the piece is a `u32` and it lies inside the files, then `store_block`
    -- does not panic, and, unless a write fails, it has replaced exactly the bytes of the block,
    -- whatever the files that it lies in.
    pub store_block-Overwrites :
        (disk : fs.Disk) (piece_offset block_index : ℕ) (bytes : Bytes)
        → 0 < length bytes
        → block_index * block_size < u32_mod
        → piece_offset + block_index * block_size + length bytes ≤ size offsets
        → Runs
            (λ disk'.
              Overwrites disk disk'
                (piece_offset + block_index * block_size)
                (length bytes)
                0
                bytes)
            (store_block fs disk files offsets piece_offset block_index bytes)
    unfolding store_block
    store_block-Overwrites disk piece_offset block_index bytes some_byte word range =
        Runs-bind (Runs-Returns (Returns-checked u32_mod (block_index * block_size) word))
          λ in_piece is_in.
            Runs-bind
              (Runs-Returns (
                Returns-checked u64_mod (piece_offset + in_piece)
                  (omega (arith, is_in, range, bound))))
              λ offset is_offset.
                Runs-bind
                  (Runs-Returns (
                    search_ptrs-Covers offsets o bound offset (length bytes) some_byte
                      (omega (arith, is_in, is_offset, range))))
                  λ (i, ptrs) covers.
                    Runs-weaken
                      (store_parts-Overwrites disk i offset 0 (length bytes) ptrs bytes covers
                        (omega arith))
                      λ disk' h.
                        Overwrites-at disk disk' bytes (omega (arith, is_in, is_offset)) refl refl h
