-- ===== src/Download/Search.antt =====
-- `search_index` and `search_ptrs` of bt/src/base/download.rs: where in the files a range of the
-- torrent lies. `create_files` makes the offsets.
pub mod Offsets
pub mod Index
pub mod Cover
pub mod Ends
use rust_torrent_client.Prelude.{
  ℕ, zero, suc, ◌+◌, ◌-◌, ◌/◌, List, [], ◌∷◌, Option, Bool, true, false, u64_mod, compare, Ordering,
  ◌==◌, ltb, leb, if◌then◌else◌, length, get_elem?, Outcome, ok, err, panic, out_of_fuel, or_panic,
  checked, minus, ◌>>=◌,
}
use rust_torrent_client.Stream.{Error}

-- The offsets that `create_files` pushes for the lengths of the files, the total last: the rounds of
-- its loop from `file_offset` on, whose addition panics if the sum does not fit a `u64`.
unfoldable pub create_offsets : {E : Type 0} → ℕ → List ℕ → Outcome E (List ℕ)
create_offsets file_offset [] = ok (file_offset ∷ [])
create_offsets file_offset (len ∷ lens) = do
  next ← checked u64_mod (file_offset + len)
  rest ← create_offsets next lens
  ok (file_offset ∷ rest)

-- `file_offsets[file_offsets.len() - 1]`, the length of all files.
unfoldable pub files_length : {E : Type 0} → List ℕ → Outcome E ℕ
files_length file_offsets = do
  last ← minus (length file_offsets) 1
  or_panic (get_elem? file_offsets last)

-- The same offsets without bounds.
unfoldable pub offsets_from : ℕ → List ℕ → List ℕ
offsets_from file_offset [] = file_offset ∷ []
offsets_from file_offset (len ∷ lens) = file_offset ∷ offsets_from (file_offset + len) lens

abbrev pub file_offsets : List ℕ → List ℕ
file_offsets lens = offsets_from 0 lens

-- The arms of the body of the loop of `search_index`, by how the offset compares to the one in the
-- middle; `more` is the rest of the loop from new bounds.
abbrev Loop : Type 0
Loop = ℕ → ℕ → Outcome Error ℕ

unfoldable pub search_arm : Loop → ℕ → ℕ → ℕ → Ordering → Outcome Error ℕ
search_arm more left right mid Ordering.eq = ok mid
search_arm more left right mid Ordering.lt = do right_1 ← minus mid 1; more left right_1
search_arm more left right mid Ordering.gt = more (mid + 1) right

unfoldable pub search_round : Loop → List ℕ → ℕ → ℕ → ℕ → ℕ → Outcome Error ℕ
search_round more offsets offset left right mid = do
  at_mid ← or_panic (get_elem? offsets mid)
  search_arm more left right mid (compare offset at_mid)

-- The `while` loop of `search_index`, with fuel for its rounds.
unfoldable pub search_loop : ℕ → List ℕ → ℕ → ℕ → ℕ → Outcome Error ℕ
search_loop zero offsets offset left right = out_of_fuel
search_loop (suc fuel) offsets offset left right =
    let round =
      search_round (search_loop fuel offsets offset) offsets offset left right
        ((left + right) / 2) in
    if leb left right then round else ok right

unfoldable pub search_index : List ℕ → ℕ → Outcome Error ℕ
search_index offsets offset = do
  right ← minus (length offsets) 1
  search_loop (suc (length offsets)) offsets offset 0 right

-- A part of the range: where it starts in the data and in the file, and its length.
pub record Ptr : Type 0 where
  pub data_ptr : ℕ
  pub file_ptr : ℕ
  pub len : ℕ

-- The body of the loop of `search_ptrs` for a file that the range goes beyond; `more` is the rest
-- of the loop from the new values of its variables.
unfoldable pub ptr_round :
    (ℕ → ℕ → ℕ → ℕ → Outcome Error (List Ptr)) → ℕ → ℕ → ℕ → ℕ → ℕ → ℕ → Outcome Error (List Ptr)
ptr_round more begin end i data_ptr left file_ptr = do
  size ← minus end begin
  l ← minus size file_ptr
  left_1 ← minus left l
  ptrs ← more (i + 1) (data_ptr + l) left_1 0
  ok (record { data_ptr = data_ptr; file_ptr = file_ptr; len = l } ∷ ptrs)

-- The `while` loop of `search_ptrs`, with fuel for its rounds.
unfoldable pub ptr_loop : ℕ → List ℕ → ℕ → ℕ → ℕ → ℕ → Outcome Error (List Ptr)
ptr_loop zero offsets i data_ptr left file_ptr = out_of_fuel
ptr_loop (suc fuel) offsets i data_ptr left file_ptr = do
  begin ← or_panic (get_elem? offsets i)
  end ← or_panic (get_elem? offsets (i + 1))
  reach ← checked u64_mod (left + begin + file_ptr)
  let round = ptr_round (ptr_loop fuel offsets) begin end i data_ptr left file_ptr
  if ltb end reach
      then round
      else ok (record { data_ptr = data_ptr; file_ptr = file_ptr; len = left } ∷ [])

unfoldable pub search_ptrs : List ℕ → ℕ → ℕ → Outcome Error (ℕ × List Ptr)
search_ptrs offsets offset len = do
  index ← search_index offsets offset
  begin ← or_panic (get_elem? offsets index)
  file_ptr ← minus offset begin
  ptrs ← ptr_loop (length offsets) offsets index 0 len file_ptr
  ok (index, ptrs)
