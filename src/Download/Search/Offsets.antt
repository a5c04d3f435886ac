-- ===== src/Download/Search/Offsets.antt =====
-- The offsets of the files are in order, from 0 to the total.
use rust_torrent_client.Prelude.{
  ℕ, zero, suc, ◌+◌, ◌-◌, ◌≤◌, ◌<◌, ◌≡◌, refl, List, [], ◌∷◌, some, length, get_elem?, get_or,
  arith, Bool-cases, inl, inr, ltb, ltb→lt, lt→ltb, le→ltb, ap, ◌∙◌, u64_mod, ok, panic,
  if◌then◌else◌,
}
use rust_torrent_client.Download.Search.{create_offsets, files_length, offsets_from, file_offsets}

abbrev pub total : List ℕ → ℕ
total [] = 0
total (len ∷ lens) = len + total lens

-- `offsets[i]`, where it is in bounds.
abbrev pub at : List ℕ → ℕ → ℕ
at offsets i = get_or offsets i 0

pub get_elem?-at : (xs : List ℕ) (i : ℕ) → i < length xs → get_elem? xs i ≡ some (at xs i)
get_elem?-at [] i h = elim h [ ]
get_elem?-at (x ∷ xs) zero h = refl
get_elem?-at (x ∷ xs) (suc i) h = get_elem?-at xs i (omega arith)

pub record Ordered (offsets : List ℕ) : Type 0 where
  pub some_offset : 0 < length offsets
  pub first : at offsets 0 ≡ 0
  pub increasing : (i j : ℕ) → i ≤ j → j < length offsets → at offsets i ≤ at offsets j

length-offsets_from : (o : ℕ) (lens : List ℕ) → length (offsets_from o lens) ≡ length lens + 1
unfolding offsets_from
length-offsets_from o [] = omega arith
length-offsets_from o (n ∷ lens) = omega (arith, length-offsets_from (o + n) lens)

at-offsets_from_le :
    (o : ℕ) (lens : List ℕ) (j : ℕ)
    → j < length (offsets_from o lens)
    → o ≤ at (offsets_from o lens) j
unfolding offsets_from
at-offsets_from_le o [] zero h = omega arith
at-offsets_from_le o [] (suc j) h = absurd (omega arith)
at-offsets_from_le o (n ∷ lens) zero h = omega arith
at-offsets_from_le o (n ∷ lens) (suc j) h =
    omega (arith, at-offsets_from_le (o + n) lens j (omega arith))

increasing_from :
    (o : ℕ) (lens : List ℕ) (i j : ℕ)
    → i ≤ j
    → j < length (offsets_from o lens)
    → at (offsets_from o lens) i ≤ at (offsets_from o lens) j
unfolding offsets_from
increasing_from o [] zero zero h k = omega arith
increasing_from o [] i (suc j) h k = absurd (omega arith)
increasing_from o [] (suc i) zero h k = absurd (omega arith)
increasing_from o (n ∷ lens) zero zero h k = omega arith
increasing_from o (n ∷ lens) zero (suc j) h k =
    omega (arith, at-offsets_from_le (o + n) lens j (omega arith))
increasing_from o (n ∷ lens) (suc i) zero h k = absurd (omega arith)
increasing_from o (n ∷ lens) (suc i) (suc j) h k =
    increasing_from (o + n) lens i j (omega arith) (omega arith)

first_from : (o : ℕ) (lens : List ℕ) → at (offsets_from o lens) 0 ≡ o
unfolding offsets_from
first_from o [] = refl
first_from o (n ∷ lens) = refl

last_from : (o : ℕ) (lens : List ℕ) → at (offsets_from o lens) (length lens) ≡ o + total lens
unfolding offsets_from
last_from o [] = omega arith
last_from o (n ∷ lens) = omega (arith, last_from (o + n) lens)

size_from :
    (o : ℕ) (lens : List ℕ) (i : ℕ)
    → i < length lens
    → at (offsets_from o lens) (suc i) ≡ at (offsets_from o lens) i + at lens i
unfolding offsets_from
size_from o [] i h = absurd (omega arith)
size_from o (n ∷ lens) zero h = first_from (o + n) lens
size_from o (n ∷ lens) (suc i) h = size_from (o + n) lens i (omega arith)

-- The offsets that `create_files` makes start at 0, are in order, and end with the total length;
-- two neighbours lie as far apart as the file between them is long.
pub file_offsets-Ordered :
    (lens : List ℕ)
    → Ordered (file_offsets lens)
      × (length (file_offsets lens) ≡ length lens + 1)
      × (at (file_offsets lens) (length lens) ≡ total lens)
      × ((i : ℕ)
          → i < length lens
          → at (file_offsets lens) (suc i) ≡ at (file_offsets lens) i + at lens i)
file_offsets-Ordered lens = (
  record {
    some_offset = omega (arith, length-offsets_from 0 lens);
    first = first_from 0 lens;
    increasing = increasing_from 0 lens;
  },
  length-offsets_from 0 lens,
  omega (arith, last_from 0 lens),
  size_from 0 lens,
)

-- `create_files` makes these offsets if all of them fit a `u64`, and else it panics.
create_offsets_lem :
    {E : Type 0} (o : ℕ) (lens : List ℕ)
    → o < u64_mod
    → create_offsets {E = E} o lens
      ≡ (if ltb (o + total lens) u64_mod then ok (offsets_from o lens) else panic)
unfolding create_offsets offsets_from
create_offsets_lem o [] h = rw (lt→ltb (o + 0) u64_mod (omega (arith, h))) refl
create_offsets_lem {E} o (n ∷ lens) h = elim (Bool-cases (ltb (o + n) u64_mod)) [
  | inl fits ↦
      let same : o + n + total lens ≡ o + (n + total lens) = omega arith in
      rw fits (
        rw (create_offsets_lem {E = E} (o + n) lens (ltb→lt (o + n) u64_mod fits)) (
          rw same (elim (Bool-cases (ltb (o + (n + total lens)) u64_mod)) [
            | inl all_fit ↦ rw all_fit refl
            | inr over ↦ rw over refl
          ])))
  | inr over ↦ rw over (rw (le→ltb (o + (n + total lens)) u64_mod (ground (arith, over))) refl)
]

pub file_offsets_lem :
    {E : Type 0} (lens : List ℕ)
    → create_offsets {E = E} 0 lens
      ≡ (if ltb (total lens) u64_mod then ok (file_offsets lens) else panic)
file_offsets_lem lens =
    create_offsets_lem 0 lens (omega arith)
    ∙ ap (λ n. if ltb n u64_mod then ok (file_offsets lens) else panic) {x = 0 + total lens}
        {y = total lens} (omega arith)

pub files_length_lem :
    {E : Type 0} (lens : List ℕ) → files_length {E = E} (file_offsets lens) ≡ ok (total lens)
unfolding files_length
files_length_lem {E} lens =
    let size = length-offsets_from 0 lens in
    let last : length (file_offsets lens) - 1 ≡ length lens = omega (arith, size) in
    rw (le→ltb (length (file_offsets lens)) 1 (omega (arith, size))) (
      rw last (
        rw (get_elem?-at (file_offsets lens) (length lens) (omega (arith, size))) (
          ap ok {x = at (file_offsets lens) (length lens)} {y = total lens}
            (omega (arith, last_from 0 lens)))))

-- Two files do not overlap.
pub apart :
    (offsets : List ℕ) (o : Ordered offsets) (i j x : ℕ)
    → i + 1 < length offsets
    → j + 1 < length offsets
    → at offsets i ≤ x
    → x < at offsets (i + 1)
    → at offsets j ≤ x
    → x < at offsets (j + 1)
    → i ≡ j
apart offsets o i j x hi hj a b c e = ground (arith, o.increasing (i + 1) j, o.increasing (j + 1) i)

-- A byte below the end of a file lies in that file or an earlier one.
pub locate :
    (offsets : List ℕ) (o : Ordered offsets) (x k : ℕ)
    → k < length offsets
    → x < at offsets k
    → (j : ℕ) × (j < k) × (at offsets j ≤ x) × (x < at offsets (j + 1))
locate offsets o x zero inside below = absurd (omega (arith, o.first))
locate offsets o x (suc k) inside below = elim (Bool-cases (ltb x (at offsets k))) [
  | inl h ↦
      let (j, before, lo, hi) = locate offsets o x k (omega arith) (ltb→lt x (at offsets k) h) in
      (j, omega (arith, before), lo, hi)
  | inr h ↦ (k, omega arith, ground (arith, h), next)
]
  where
    step : k + 1 ≡ suc k
    step = omega arith

    next : x < at offsets (k + 1)
    next = rw step below
