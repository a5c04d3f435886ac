-- ===== src/Download/Search/Index.antt =====
-- `search_index` finds where an offset lies among the offsets of the files, by bisection.
use rust_torrent_client.Prelude.{
  ℕ, zero, suc, ◌+◌, ◌-◌, ◌/◌, ◌≤◌, ◌<◌, ◌≡◌, sym, ap, List, compare, Ordering, leb, leb→le, length,
  ◌⊎◌, inl, inr, arith, Bool-cases, ltb, ltb→lt, Returns-weaken, Outcome, Returns, returned,
  Returns-if, Returns-bind, Returns-or_panic, Returns-minus,
}
use rust_torrent_client.Stream.{Error}
use rust_torrent_client.Download.Search.{search_arm, search_round, search_loop, search_index}
use rust_torrent_client.Download.Search.Offsets.{at, get_elem?-at, Ordered}

-- The offset is that of index `i`, or it lies above it and below all later ones.
pub record Finds (offsets : List ℕ) (offset i : ℕ) : Type 0 where
  pub inside : i < length offsets
  pub below : at offsets i ≤ offset
  pub nearest :
      (at offsets i ≡ offset) ⊎ ((j : ℕ) → i < j → j < length offsets → offset < at offsets j)

module _ (offsets : List ℕ) (o : Ordered offsets) (offset : ℕ) where
  -- The offset is above those before `left`, and below those after `right`.
  record Bounds (left right : ℕ) : Type 0 where
    order : left ≤ right + 1
    inside : right < length offsets
    lower : (j : ℕ) → j < left → at offsets j < offset
    upper : (j : ℕ) → right < j → j < length offsets → offset < at offsets j

  abbrev Found : Outcome Error ℕ → Type 0
  Found = Returns (Finds offsets offset)

  -- The rest of the loop finds the file from narrower bounds.
  abbrev Narrows : (ℕ → ℕ → Outcome Error ℕ) → ℕ → ℕ → Type 0
  Narrows more left right =
      (left_1 right_1 : ℕ)
      → right_1 + left < right + left_1
      → Bounds left_1 right_1
      → Found (more left_1 right_1)

  search_arm-Found :
      (more : ℕ → ℕ → Outcome Error ℕ) (left right mid : ℕ) (r : Ordering)
      → compare offset (at offsets mid) ≡ r
      → left ≤ mid
      → mid ≤ right
      → Bounds left right
      → Narrows more left right
      → Found (search_arm more left right mid r)
  unfolding search_arm
  search_arm-Found more left right mid Ordering.eq e lo hi b rest = returned (record {
    inside = omega (arith, b.inside);
    below = ground (arith, e);
    nearest = inl (ground (arith, e));
  })
  search_arm-Found more left right mid Ordering.lt e lo hi b rest =
      let less : offset < at offsets mid = ground (arith, e) in
      let pos : 0 < mid = pos_of less in
      Returns-bind (Returns-minus mid 1 pos) λ right_1 is.
        rest left right_1 (omega (arith, is, pos)) (record {
          order = omega (arith, is, lo, pos);
          inside = omega (arith, is, hi, b.inside);
          lower = b.lower;
          upper = λ j above inside.
              omega
                (arith, is, pos, less, o.increasing mid j (omega (arith, is, above, pos)) inside);
        })
    where
      -- the first offset is 0
      pos_of : offset < at offsets mid → 0 < mid
      pos_of less = ground (arith, o.first, less)
  search_arm-Found more left right mid Ordering.gt e lo hi b rest =
      let less : at offsets mid < offset = ground (arith, e) in
      rest (mid + 1) right (omega arith) (record {
        order = omega arith;
        inside = b.inside;
        lower = λ j under.
            omega (
              arith,
              less,
              o.increasing j mid (omega (arith, under)) (omega (arith, hi, b.inside)),
            );
        upper = b.upper;
      })

  search_loop-Found :
      (fuel left right : ℕ)
      → right + 1 < fuel + left
      → Bounds left right
      → Found (search_loop fuel offsets offset left right)
  unfolding search_loop search_round
  search_loop-Found zero left right enough b = absurd (omega (arith, b.order))
  search_loop-Found (suc fuel) left right enough b =
      Returns-if (leb left right)
        (λ going.
          let le = leb→le left right going in
          let mid = (left + right) / 2 in
          Returns-bind (Returns-or_panic (get_elem?-at offsets mid (omega (arith, b.inside, le))))
            λ at_mid is.
              search_arm-Found (search_loop fuel offsets offset) left right mid
                (compare offset at_mid) (ap (compare offset) (sym is)) (omega arith) (omega arith) b
                λ left_1 right_1 narrower b_1.
                  search_loop-Found fuel left_1 right_1 (omega arith) b_1)
        (λ over. returned (record {
          inside = b.inside;
          below = omega (arith, b.lower right (ground (arith, over)));
          nearest = inr b.upper;
        }))

  search_index-Found : Found (search_index offsets offset)
  unfolding search_index
  search_index-Found = Returns-bind (Returns-minus (length offsets) 1 o.some_offset) λ right is.
      search_loop-Found (suc (length offsets)) 0 right (omega (arith, is, o.some_offset)) (record {
        order = omega arith;
        inside = omega (arith, is, o.some_offset);
        lower = λ j h. absurd (omega arith);
        upper = λ j above inside. absurd (omega (arith, is));
      })

  -- The index `i` is that of a file, and the offset lies in it, or the file is empty and stands at the
  -- offset.
  pub record InFile (i : ℕ) : Type 0 where
    pub is_file : i + 1 < length offsets
    pub begins : at offsets i ≤ offset
    pub ends :
        (offset < at offsets (i + 1)) ⊎ ((at offsets i ≡ offset) × (at offsets (i + 1) ≡ offset))

  -- An offset below the end of the files is found in a file.
  Finds-InFile :
      (i : ℕ) → Finds offsets offset i → offset < at offsets (length offsets - 1) → InFile i
  Finds-InFile i finds below =
      let next : i + 1 < length offsets = ground (
        arith,
        finds.inside,
        finds.below,
        o.increasing (length offsets - 1) i,
        ap (at offsets) {x = length offsets - 1} {y = i},
      ) in
      record {
        is_file = next;
        begins = finds.below;
        ends = elim finds.nearest [
          | inl e ↦ elim (Bool-cases (ltb offset (at offsets (i + 1)))) [
            | inl within ↦ inl (ltb→lt offset (at offsets (i + 1)) within)
            | inr over ↦ inr (e, ground (arith, over, e, o.increasing i (i + 1) (omega arith) next))
          ]
          | inr h ↦ inl (h (i + 1) (omega arith) next)
        ];
      }

  -- On the offsets of files `search_index` never panics, needs no more rounds than there are
  -- offsets, and returns an index whose offset is the one searched for, or is below it while all
  -- later ones are above it. Unless the offset lies at or past the end of all files, that is the
  -- index of a file in which it lies, or of an empty file that stands at the offset.
  pub search_index-Finds :
      Returns
        (λ i. Finds offsets offset i × ((at offsets (length offsets - 1) ≤ offset) ⊎ InFile i))
        (search_index offsets offset)
  search_index-Finds = Returns-weaken search_index-Found λ i finds. (
    finds,
    elim (Bool-cases (ltb offset (at offsets (length offsets - 1)))) [
      | inl below ↦
          inr (Finds-InFile i finds (ltb→lt offset (at offsets (length offsets - 1)) below))
      | inr over ↦ inl (ground (arith, over))
    ],
  )
