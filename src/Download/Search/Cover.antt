-- ===== src/Download/Search/Cover.antt =====
-- `search_ptrs` cuts a range of the torrent into the parts that lie in one file each.
use rust_torrent_client.Prelude.{
  ℕ, zero, suc, ◌+◌, ◌-◌, ◌≤◌, ◌<◌, ◌≡◌, refl, List, [], ◌∷◌, u64_mod, ltb, ltb→lt, length, inl,
  inr, arith, Returns, returned, Returns-if, Returns-bind, Returns-or_panic, Returns-checked,
  Returns-minus,
}
use rust_torrent_client.Download.Search.{Ptr, ptr_round, ptr_loop, search_ptrs}
use rust_torrent_client.Download.Search.Offsets.{at, get_elem?-at, Ordered}
use rust_torrent_client.Download.Search.Index.{Finds, search_index-Finds}

-- The parts stand for the `left` bytes from `pos` on, of which the first lies in the file `i`: they
-- follow each other in the data, from `d` on, and in the files, of which each is used to its end
-- before the next.
pub data Covers (offsets : List ℕ) : ℕ → ℕ → ℕ → ℕ → List Ptr → Type 0 where
  last :
      {i pos d left : ℕ} {p : Ptr}
      → i + 1 < length offsets
      → p.data_ptr ≡ d
      → at offsets i + p.file_ptr ≡ pos
      → p.len ≡ left
      → pos + left ≤ at offsets (i + 1)
      → Covers offsets i pos d left (p ∷ [])
  more :
      {i pos d left rest : ℕ} {p : Ptr} {ps : List Ptr}
      → i + 1 < length offsets
      → p.data_ptr ≡ d
      → at offsets i + p.file_ptr ≡ pos
      → p.len + rest ≡ left
      → pos + p.len ≡ at offsets (i + 1)
      → Covers offsets (i + 1) (at offsets (i + 1)) (d + p.len) rest ps
      → Covers offsets i pos d left (p ∷ ps)

-- The length of all files.
abbrev pub size : List ℕ → ℕ
size offsets = at offsets (length offsets - 1)

module _ (offsets : List ℕ) (o : Ordered offsets) (bound : size offsets < u64_mod) where
  -- Where a round of the loop starts.
  record Inside (i left file_ptr : ℕ) : Type 0 where
    index : i + 1 < length offsets
    file : at offsets i + file_ptr ≤ at offsets (i + 1)
    range : at offsets i + file_ptr + left ≤ size offsets

  -- A file that ends before the last byte is not the last one.
  not_last :
      (i : ℕ) → i + 1 < length offsets → at offsets (i + 1) < size offsets → i + 2 < length offsets
  not_last i inside before = ground (arith, o.increasing (length offsets - 1) (i + 1))

  ptr_loop-Covers :
      (fuel i d left file_ptr : ℕ)
      → length offsets ≤ fuel + i
      → Inside i left file_ptr
      → Returns
          (Covers offsets i (at offsets i + file_ptr) d left)
          (ptr_loop fuel offsets i d left file_ptr)
  unfolding ptr_loop ptr_round
  ptr_loop-Covers zero i d left file_ptr enough h = absurd (omega (arith, h.index))
  ptr_loop-Covers (suc fuel) i d left file_ptr enough h =
      Returns-bind (Returns-or_panic (get_elem?-at offsets i (omega (arith, h.index))))
        λ begin is_begin.
          Returns-bind (Returns-or_panic (get_elem?-at offsets (i + 1) h.index)) λ end is_end.
            Returns-bind
              (Returns-checked u64_mod (left + begin + file_ptr)
                (omega (arith, h.range, bound, is_begin)))
              λ reach is_reach.
                Returns-if (ltb end reach)
                  (λ beyond.
                    let past : end < reach = ltb→lt end reach beyond in
                    let start_of_next : at offsets (i + 1) + 0 ≡ at offsets (i + 1) = omega arith in
                    let next =
                      not_last i h.index
                        (omega (arith, past, h.range, is_end, is_begin, is_reach)) in
                    Returns-bind (Returns-minus end begin (omega (arith, h.file, is_begin, is_end)))
                      λ size is_size.
                        Returns-bind
                          (Returns-minus size file_ptr
                            (omega (arith, h.file, is_begin, is_end, is_size)))
                          λ l is_l.
                            Returns-bind
                              (Returns-minus left l (
                                omega
                                  (arith, h.file, past, is_begin, is_end, is_reach, is_size, is_l)))
                              λ rest is_rest.
                                Returns-bind
                                  (ptr_loop-Covers fuel (i + 1) (d + l) rest 0 (omega arith)
                                    (record {
                                      index = omega (arith, next);
                                      file = omega (
                                        arith,
                                        o.increasing (i + 1) (i + 1 + 1) (omega arith)
                                            (omega (arith, next)),
                                      );
                                      range = omega (
                                        arith, h.file, h.range, past, is_begin, is_end, is_reach,
                                        is_size, is_l, is_rest,
                                      );
                                    }))
                                  λ ps covers. returned (
                                    more h.index refl refl
                                      (omega (
                                        arith, h.file, h.range, past, is_begin, is_end, is_reach,
                                        is_size, is_l, is_rest,
                                      ))
                                      (omega (
                                        arith, h.file, h.range, past, is_begin, is_end, is_reach,
                                        is_size, is_l, is_rest,
                                      ))
                                      (rw start_of_next at covers)))
                  (λ within. returned (
                    last h.index refl refl refl
                      (ground (arith, within, is_begin, is_end, is_reach))))

  -- For a range of at least one byte that lies in the files, of less than 2 ^ 64 bytes in all,
  -- `search_ptrs` never panics, needs no more rounds than there are offsets, and returns parts
  -- that cover the range.
  pub search_ptrs-Covers :
      (offset len : ℕ)
      → 0 < len
      → offset + len ≤ size offsets
      → Returns (λ (i, ps). Covers offsets i offset 0 len ps) (search_ptrs offsets offset len)
  unfolding search_ptrs
  search_ptrs-Covers offset len some_byte range =
      Returns-bind (search_index-Finds offsets o offset) λ i (finds, _).
        let next = reaches i finds in
        Returns-bind (Returns-or_panic (get_elem?-at offsets i (omega (arith, finds.inside))))
          λ begin is_begin.
            Returns-bind (Returns-minus offset begin (omega (arith, finds.below, is_begin)))
              λ file_ptr is_ptr.
                Returns-bind
                  (ptr_loop-Covers (length offsets) i 0 len file_ptr (omega arith) (record {
                    index = next.0;
                    file = omega (arith, next.1, finds.below, is_begin, is_ptr);
                    range = omega (arith, range, finds.below, is_begin, is_ptr);
                  }))
                  λ ps covers.
                    let begins : at offsets i + file_ptr ≡ offset =
                      omega (arith, finds.below, is_begin, is_ptr) in
                    returned (rw begins at covers)
    where
      -- the file that was found is not the end of the last one, and reaches to the offset
      reaches :
          (i : ℕ)
          → Finds offsets offset i
          → (i + 1 < length offsets) × (offset ≤ at offsets (i + 1))
      reaches i finds = elim finds.nearest [
        | inl e ↦
            let next : i + 1 < length offsets =
              ground (arith, o.increasing (length offsets - 1) i) in
            (next, omega (arith, e, o.increasing i (i + 1) (omega arith) next))
        | inr h ↦
            let next : i + 1 < length offsets = ground (arith, finds.inside, finds.below) in
            (next, omega (arith, h (i + 1) (omega arith) next))
      ]
