-- ===== src/Download/Search/Ends.antt =====
-- The loops of `search_index` and `search_ptrs` end, whatever the offsets.
use rust_torrent_client.Prelude.{
  ℕ, zero, suc, ◌+◌, ◌-◌, ◌/◌, ◌≤◌, ◌<◌, ◌≡◌, refl, List, Option, some, none, u64_mod, compare,
  Ordering, leb, leb→le, ltb, length, get_elem?, get_elem?-lt, arith, Outcome, or_panic, minus,
  Ensures, holds, panicked, Ensures-if, Ensures-bind, Ensures-or_panic, Ensures-checked,
}
use rust_torrent_client.Stream.{Error}
use rust_torrent_client.Download.Search.{
  search_arm, search_loop, search_round, search_index, ptr_round, ptr_loop, search_ptrs,
}

-- The run ends: it needs no more fuel than it has.
abbrev pub Ends {ℓ} : {A : Type ℓ} → Outcome Error A → Type ℓ
Ends r = Ensures (λ _. Unit {0}) r

pub Ensures-minus : (a b : ℕ) → Ensures {E = Error} (λ m. (m ≡ a - b) × (b ≤ a)) (minus a b)
Ensures-minus a b = Ensures-if (ltb a b) (λ _. panicked) (λ h. holds (refl, ground (arith, h)))

pub Ends-or_panic {ℓ} : {A : Type ℓ} (o : Option A) → Ends (or_panic o)
Ends-or_panic none = panicked
Ends-or_panic (some a) = holds tt

module _ (offsets : List ℕ) where
  search_arm-Ends :
      (more : ℕ → ℕ → Outcome Error ℕ) (left right mid : ℕ) (r : Ordering)
      → left ≤ mid
      → mid ≤ right
      → ((left_1 right_1 : ℕ)
          → right_1 + left < right + left_1
          → left_1 ≤ right_1 + 1
          → Ends (more left_1 right_1))
      → Ends (search_arm more left right mid r)
  unfolding search_arm
  search_arm-Ends more left right mid Ordering.eq lo hi rest = holds tt
  search_arm-Ends more left right mid Ordering.lt lo hi rest =
      Ensures-bind (Ensures-minus mid 1)
        λ right_1 (is, pos). rest left right_1 (omega (arith, is)) (omega (arith, is))
  search_arm-Ends more left right mid Ordering.gt lo hi rest =
      rest (mid + 1) right (omega arith) (omega arith)

  search_loop-Ends :
      (offset fuel left right : ℕ)
      → right + 1 < fuel + left
      → left ≤ right + 1
      → Ends (search_loop fuel offsets offset left right)
  unfolding search_loop search_round
  search_loop-Ends offset zero left right enough order = absurd (omega arith)
  search_loop-Ends offset (suc fuel) left right enough order =
      Ensures-if (leb left right)
        (λ going.
          let le = leb→le left right going in
          let mid = (left + right) / 2 in
          Ensures-bind (Ends-or_panic (get_elem? offsets mid)) λ at_mid _.
            search_arm-Ends (search_loop fuel offsets offset) left right mid (compare offset at_mid)
              (omega arith) (omega arith)
              λ left_1 right_1 narrower next.
                search_loop-Ends offset fuel left_1 right_1 (omega arith) next)
        (λ over. holds tt)

  search_index-Ends : (offset : ℕ) → Ends (search_index offsets offset)
  unfolding search_index
  search_index-Ends offset = Ensures-bind (Ensures-minus (length offsets) 1) λ right (is, pos).
      search_loop-Ends offset (suc (length offsets)) 0 right (omega (arith, is, pos)) (omega arith)

  ptr_loop-Ends :
      (fuel i d left file_ptr : ℕ)
      → length offsets ≤ fuel + i
      → i < length offsets
      → Ends (ptr_loop fuel offsets i d left file_ptr)
  unfolding ptr_loop ptr_round
  ptr_loop-Ends zero i d left file_ptr enough inside = absurd (omega arith)
  ptr_loop-Ends (suc fuel) i d left file_ptr enough inside =
      Ensures-bind (Ends-or_panic (get_elem? offsets i)) λ begin _.
        Ensures-bind
          (Ensures-or_panic {P = λ _. i + 1 < length offsets} (get_elem? offsets (i + 1))
            (get_elem?-lt offsets (i + 1)))
          λ end next. Ensures-bind (Ensures-checked u64_mod (left + begin + file_ptr)) λ reach _.
            Ensures-if (ltb end reach)
              (λ _. Ensures-bind (Ensures-minus end begin) λ size _.
                Ensures-bind (Ensures-minus size file_ptr) λ l _.
                  Ensures-bind (Ensures-minus left l) λ rest _.
                    Ensures-bind (ptr_loop-Ends fuel (i + 1) (d + l) rest 0 (omega arith) next)
                      λ ptrs _. holds tt)
              (λ _. holds tt)

  -- `search_ptrs` never runs out of fuel.
  pub search_ptrs-Ends : (offset len : ℕ) → Ends (search_ptrs offsets offset len)
  unfolding search_ptrs
  search_ptrs-Ends offset len = Ensures-bind (search_index-Ends offset) λ index _.
      Ensures-bind
        (Ensures-or_panic {P = λ _. index < length offsets} (get_elem? offsets index)
          (get_elem?-lt offsets index))
        λ begin inside. Ensures-bind (Ensures-minus offset begin) λ file_ptr _.
          Ensures-bind (ptr_loop-Ends (length offsets) index 0 len file_ptr (omega arith) inside)
            λ ptrs _. holds tt
