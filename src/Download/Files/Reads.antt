-- ===== src/Download/Files/Reads.antt =====
-- The loop of `read` of bt/src/base/download.rs over the parts of a range fills the buffer part by
-- part.
use rust_torrent_client.Prelude.{
  ℕ, ◌+◌, ◌-◌, ◌≤◌, ◌<◌, ◌≡◌, refl, sym, ap, subst, ◌∙◌, List, some, true, false, Bytes, length,
  get_elem?, get_elem?-some, get_elem?-lt, get_or, arith, ◌⊎◌, inl, inr, Bool-cases, ltb, Runs, ran,
  Runs-bind, Runs-Returns, Runs-weaken, Returns-or_panic,
}
use rust_torrent_client.Download.Search.{Ptr}
use rust_torrent_client.Download.Search.Offsets.{at, Ordered, apart}
use rust_torrent_client.Download.Search.Cover.{Covers, last, more}
use rust_torrent_client.Download.Files.{FileSystem, read_part, read_parts}
use rust_torrent_client.Download.Files.Contents.{
  in_range, Laws, CutShort, CutShort-widen, Runs-or_io,
}
use rust_torrent_client.Download.Files.Overwrite.{slice-part}
use rust_torrent_client.Download.Files.Buffer.{length-patch, get_or-patch}

module _ (fs : FileSystem) (laws : Laws fs) (offsets : List ℕ) (o : Ordered offsets)
    (files : List fs.File) (open_files : length files + 1 ≡ length offsets) (disk : fs.Disk) where
  -- The byte `b` is that of the file, or it was not read, in a range of `n` bytes from `pos` on, and is
  -- still `b₀`.
  abbrev pub IsByte : ℕ → ℕ → ℕ → fs.File → ℕ → ℕ → ℕ → Type 0
  IsByte pos n j g q b₀ b =
      (b ≡ laws.contents disk g q) ⊎ ((b ≡ b₀) × CutShort fs laws disk offsets pos n j g q)

  pub IsByte-same :
      (pos n pos' n' : ℕ)
      → pos' ≤ pos
      → pos + n ≤ pos' + n'
      → (j : ℕ) (g : fs.File) (q : ℕ) {b₀ b₀' b b' : ℕ} → b₀ ≡ b₀'
      → b ≡ b'
      → IsByte pos n j g q b₀ b
      → IsByte pos' n' j g q b₀' b'
  IsByte-same pos n pos' n' lo hi j g q e₀ e (inl h) = inl (sym e ∙ h)
  IsByte-same pos n pos' n' lo hi j g q e₀ e (inr (h, short)) =
      inr (sym e ∙ h ∙ e₀, CutShort-widen fs laws disk offsets pos n pos' n' j g q lo hi short)

  -- From `d` on the buffer has the `n` bytes of the torrent from `pos` on, as far as they came, and
  -- else it is as it was.
  pub record Reads (pos n d : ℕ) (buffer buffer' : Bytes) : Type 0 where
    pub size : length buffer' ≡ length buffer
    pub inside :
        (j : ℕ) (g : fs.File) (q : ℕ)
        → get_elem? files j ≡ some g
        → at offsets j + q < at offsets (j + 1)
        → in_range (at offsets j + q) pos n ≡ true
        → IsByte pos n j g q
            (get_or buffer (d + (at offsets j + q - pos)) 0)
            (get_or buffer' (d + (at offsets j + q - pos)) 0)
    pub outside : (k : ℕ) → in_range k d n ≡ false → get_or buffer' k 0 ≡ get_or buffer k 0

  pub Reads-at :
      (buffer buffer' : Bytes) {pos pos' n n' d d' : ℕ}
      → pos ≡ pos'
      → n ≡ n'
      → d ≡ d'
      → Reads pos n d buffer buffer'
      → Reads pos' n' d' buffer buffer'
  Reads-at buffer buffer' {pos} {pos'} {n} {n'} {d} {d'} e_pos e_n e_d h =
      subst (λ x. Reads x n' d' buffer buffer') e_pos
        (subst (λ x. Reads pos x d' buffer buffer') e_n
          (subst (λ x. Reads pos n x buffer buffer') e_d h))

  Reads-trans :
      (b₀ b₁ b₂ : Bytes) (pos d m n : ℕ)
      → Reads pos m d b₀ b₁
      → Reads (pos + m) n (d + m) b₁ b₂
      → Reads pos (m + n) d b₀ b₂
  Reads-trans b₀ b₁ b₂ pos d m n h k = record {
    size = k.size ∙ h.size;
    inside = λ j g q at_j in_j range.
        let i = d + (at offsets j + q - pos) in
        elim (Bool-cases (in_range (at offsets j + q) pos m)) [
          | inl first ↦
              IsByte-same pos m pos (m + n) (omega arith) (omega arith) j g q refl
                (sym (k.outside i (ground (arith, first)))) (h.inside j g q at_j in_j first)
          | inr later ↦
              let same : d + m + (at offsets j + q - (pos + m)) ≡ i =
                ground (arith, range, later) in
              IsByte-same (pos + m) n pos (m + n) (omega arith) (omega arith) j g q
                (ap (λ x. get_or b₁ x 0) same ∙ h.outside i (ground (arith, range, later)))
                (ap (λ x. get_or b₂ x 0) same)
                (k.inside j g q at_j in_j (ground (arith, range, later)))
        ];
    outside = λ i range. ground (arith, range, h.outside i, k.outside i);
  }

  read_part-Reads :
      (i : ℕ) (f : fs.File) (ptr d n : ℕ) (buffer : Bytes)
      → get_elem? files i ≡ some f
      → i + 1 < length offsets
      → at offsets i + ptr + n ≤ at offsets (i + 1)
      → d + n ≤ length buffer
      → Runs (Reads (at offsets i + ptr) n d buffer) (read_part fs disk f ptr d n buffer)
  unfolding read_part
  read_part-Reads i f ptr d n buffer file inside fits enough =
      let (part, is_slice, len, same) = slice-part buffer d n enough in
      Runs-bind (Runs-Returns (Returns-or_panic is_slice)) λ part' is_part.
        let asked : length part' ≡ n = ap length is_part ∙ len in
        Runs-bind
          (Runs-or_io {P = λ got. fs.read disk f ptr (length part') ≡ some got}
            (fs.read disk f ptr (length part')) (λ got e. e))
          λ got e.
            let few : length got ≤ n =
              omega (arith, (laws.got disk f ptr (length part') got e).0, asked) in
            let room : d + length got ≤ length buffer = omega (arith, few) in
            ran (record {
              size = length-patch buffer d got room;
              inside = λ j g q at_j in_j range.
                  let here =
                    apart offsets o i j (at offsets j + q) inside
                      (omega (arith, open_files, get_elem?-lt files j g at_j)) in
                  let i_is_j : i ≡ j = ground (arith, range, here) in
                  let f_is_g : f ≡ g =
                    ground (arith, file, at_j, i_is_j, ap (get_elem? files) i_is_j) in
                  let k = d + (at offsets j + q - (at offsets i + ptr)) in
                  let start_of : at offsets i ≡ at offsets j = ap (at offsets) i_is_j in
                  elim (Bool-cases (ltb (q - ptr) (length got))) [
                    | inl came ↦ inl (
                        ground (
                          arith,
                          range,
                          start_of,
                          came,
                          ap (λ h. laws.contents disk h q) f_is_g,
                          get_or-patch buffer d got room k,
                          (laws.got disk f ptr (length part') got e).1 (q - ptr),
                          ap (laws.contents disk f) {x = ptr + (q - ptr)} {y = q},
                          ap (λ m. get_or got m 0) {x = k - d} {y = q - ptr},
                        ))
                    | inr cut ↦ inr (
                      ground (arith, range, start_of, cut, get_or-patch buffer d got room k),
                      record {
                        ptr = ptr;
                        asked = n;
                        got = got;
                        is_read =
                            subst (λ h. fs.read disk h ptr n ≡ some got) f_is_g
                              (subst (λ l. fs.read disk f ptr l ≡ some got) asked e);
                        inside_file =
                            subst (λ x. at offsets x + ptr + n ≤ at offsets (x + 1)) i_is_j fits;
                        inside_range = (ground (arith, start_of), ground (arith, start_of));
                        wanted = (ground (arith, range, start_of), ground (arith, range, start_of));
                        missing = ground (arith, range, start_of, cut);
                      },
                    )
                  ];
              outside = λ k range. ground (arith, get_or-patch buffer d got room k, range, few);
            })

  pub read_parts-Reads :
      (i pos d n : ℕ) (ptrs : List Ptr) (buffer : Bytes)
      → Covers offsets i pos d n ptrs
      → d + n ≤ length buffer
      → Runs (Reads pos n d buffer) (read_parts fs disk files i ptrs buffer)
  unfolding read_parts
  read_parts-Reads i pos d n _ buffer (last {p = p} inside is_d is_pos is_n fits) enough =
      let (f, file) = get_elem?-some files i (omega (arith, open_files)) in
      Runs-bind (Runs-Returns (Returns-or_panic file)) λ f' is_f.
        Runs-bind
          (read_part-Reads i f' p.file_ptr p.data_ptr p.len buffer (file ∙ ap some (sym is_f))
            inside (omega (arith, is_pos, is_n, fits)) (omega (arith, is_d, is_n)))
          λ buffer' h. ran (Reads-at buffer buffer' is_pos is_n is_d h)
  read_parts-Reads i pos d n _ buffer
        (more {rest = rest} {p = p} {ps = ps} inside is_d is_pos is_sum ends covers) enough =
      let (f, file) = get_elem?-some files i (omega (arith, open_files)) in
      Runs-bind (Runs-Returns (Returns-or_panic file)) λ f' is_f.
        Runs-bind
          (read_part-Reads i f' p.file_ptr p.data_ptr p.len buffer (file ∙ ap some (sym is_f))
            inside (omega (arith, is_pos, ends)) (omega (arith, is_d, is_sum)))
          λ buffer_1 h.
            Runs-weaken
              (read_parts-Reads (i + 1) (at offsets (i + 1)) (d + p.len) rest ps buffer_1 covers
                (omega (arith, is_sum, h.size)))
              λ buffer_2 k. Reads-at buffer buffer_2 refl is_sum refl (
                Reads-trans buffer buffer_1 buffer_2 pos d p.len rest
                  (Reads-at buffer buffer_1 is_pos refl is_d h)
                  (Reads-at buffer_1 buffer_2 (sym ends) refl refl k))
