-- ===== src/Bencode/Fields/Encodable.antt =====
-- The values that `into_value` of bt/src/bencode/value.rs makes can be encoded.
use rust_torrent_client.Prelude.{
  ℕ, ◌<◌, ◌≡◌, refl, ap, ◌∙◌, List, [], ◌∷◌, Option, none, some, true, Bytes, All, Ordering,
  compare, length, arith, u64_mod,
}
use rust_torrent_client.Bencode.Utf8.{is_utf8}
use rust_torrent_client.Bencode.Encode.{
  Value, Entries, empty_map, entry, insert, insert_at, compare_bytes, then_compare,
}
use rust_torrent_client.Bencode.RoundTrip.{IsEncodable, AllEncodable, MapEncodable}
use rust_torrent_client.Bencode.RoundTrip.Maps.{AllAfter}
use rust_torrent_client.Bencode.Fields.{
  unsigned_into_value, values_from, vec_into_value, insert_option,
}

abbrev pub flip : Ordering → Ordering
flip Ordering.lt = Ordering.gt
flip Ordering.eq = Ordering.eq
flip Ordering.gt = Ordering.lt

flip-then_compare :
    (o p o' p' : Ordering)
    → o' ≡ flip o
    → p' ≡ flip p
    → then_compare o' p' ≡ flip (then_compare o p)
unfolding then_compare
flip-then_compare Ordering.lt p o' p' e h = rw e
flip-then_compare Ordering.eq p o' p' e h = rw e h
flip-then_compare Ordering.gt p o' p' e h = rw e

pub flip-compare_bytes : (a b : Bytes) → compare_bytes b a ≡ flip (compare_bytes a b)
unfolding compare_bytes
flip-compare_bytes [] [] = refl
flip-compare_bytes [] (y ∷ ys) = refl
flip-compare_bytes (x ∷ xs) [] = refl
flip-compare_bytes (x ∷ xs) (y ∷ ys) =
    flip-then_compare (compare x y) (compare_bytes xs ys) (compare y x) (compare_bytes ys xs)
      (ground arith) (flip-compare_bytes xs ys)

compare_bytes_trans :
    (a b c : Bytes)
    → compare_bytes a b ≡ Ordering.lt
    → compare_bytes b c ≡ Ordering.lt
    → compare_bytes a c ≡ Ordering.lt
unfolding compare_bytes then_compare
compare_bytes_trans [] [] c h k = cc
compare_bytes_trans [] (y ∷ ys) [] h k = cc
compare_bytes_trans [] (y ∷ ys) (z ∷ zs) h k = refl
compare_bytes_trans (x ∷ xs) [] c h k = cc
compare_bytes_trans (x ∷ xs) (y ∷ ys) [] h k = cc
compare_bytes_trans (x ∷ xs) (y ∷ ys) (z ∷ zs) h k = ground (arith, compare_bytes_trans xs ys zs)

pub later_trans :
    (k k' : Bytes) (map : Entries)
    → compare_bytes k k' ≡ Ordering.lt
    → AllAfter k' map
    → AllAfter k map
later_trans k k' empty_map h a = tt
later_trans k k' (entry k'' v map) h a =
    (compare_bytes_trans k k' k'' h a.0, later_trans k k' map h a.1)

AllAfter-insert_at :
    (key k : Bytes) (v : Value) (k' : Bytes) (v' : Value) (map inserted : Entries) (o : Ordering)
    → compare_bytes key k ≡ Ordering.lt
    → AllAfter key (entry k' v' map)
    → AllAfter key inserted
    → AllAfter key (insert_at o k v k' v' map inserted)
unfolding insert_at
AllAfter-insert_at key k v k' v' map inserted Ordering.lt h a i = (a.0, i)
AllAfter-insert_at key k v k' v' map inserted Ordering.eq h a i = a
AllAfter-insert_at key k v k' v' map inserted Ordering.gt h a i = (h, a)

AllAfter-insert :
    (key k : Bytes) (v : Value) (map : Entries)
    → compare_bytes key k ≡ Ordering.lt
    → AllAfter key map
    → AllAfter key (insert k v map)
unfolding insert
AllAfter-insert key k v empty_map h a = (h, tt)
AllAfter-insert key k v (entry k' v' map) h a =
    AllAfter-insert_at key k v k' v' map (insert k v map) (compare_bytes k' k) h a
      (AllAfter-insert key k v map h a.1)

-- A string that can be encoded.
abbrev pub IsText : Bytes → Type 0
IsText s = (is_utf8 s ≡ true) × (length s < u64_mod)

MapEncodable-insert_at :
    (k : Bytes) (v : Value) (k' : Bytes) (v' : Value) (map inserted : Entries) (o : Ordering)
    → compare_bytes k' k ≡ o
    → IsText k
    → IsEncodable v
    → MapEncodable (entry k' v' map)
    → (compare_bytes k' k ≡ Ordering.lt → AllAfter k' inserted)
    → MapEncodable inserted
    → MapEncodable (insert_at o k v k' v' map inserted)
unfolding insert_at IsEncodable MapEncodable
MapEncodable-insert_at k v k' v' map inserted Ordering.lt e t w m after i =
    (m.0, m.1, after e, m.3, i)
MapEncodable-insert_at k v k' v' map inserted Ordering.eq e t w m after i = (m.0, m.1, m.2, w, m.4)
MapEncodable-insert_at k v k' v' map inserted Ordering.gt e t w m after i =
    let before = flip-compare_bytes k' k ∙ ap flip e in
    (t.0, t.1, (before, later_trans k k' map before m.2), w, m)

pub MapEncodable-insert :
    (k : Bytes) (v : Value) (map : Entries)
    → IsText k
    → IsEncodable v
    → MapEncodable map
    → MapEncodable (insert k v map)
unfolding insert IsEncodable MapEncodable
MapEncodable-insert k v empty_map t w m = (t.0, t.1, tt, w, tt)
MapEncodable-insert k v (entry k' v' map) t w m =
    MapEncodable-insert_at k v k' v' map (insert k v map) (compare_bytes k' k) refl t w m
      (λ before. AllAfter-insert k' k v map before m.2) (MapEncodable-insert k v map t w m.4)

pub MapEncodable-insert_option :
    {A : Type 0} (into : A → Value) (k : Bytes) (o : Option A) (map : Entries)
    → IsText k
    → ((a : A) → o ≡ some a → IsEncodable (into a))
    → MapEncodable map
    → MapEncodable (insert_option into k o map)
unfolding insert_option
MapEncodable-insert_option into k none map t w m = m
MapEncodable-insert_option into k (some a) map t w m =
    MapEncodable-insert k (into a) map t (w a refl) m

pub IsEncodable-unsigned : (n : ℕ) → n < u64_mod → IsEncodable (unsigned_into_value n)
unfolding IsEncodable unsigned_into_value
IsEncodable-unsigned n h = ground arith

pub AllEncodable-values_from :
    {A : Type 0} (into : A → Value) (items : List A)
    → All (λ a. IsEncodable (into a)) items
    → AllEncodable (values_from into items)
unfolding AllEncodable values_from IsEncodable
AllEncodable-values_from into [] h = tt
AllEncodable-values_from into (a ∷ items) h = (h.0, AllEncodable-values_from into items h.1)

pub IsEncodable-vec :
    {A : Type 0} (into : A → Value) (items : List A)
    → All (λ a. IsEncodable (into a)) items
    → IsEncodable (vec_into_value into items)
unfolding IsEncodable AllEncodable vec_into_value
IsEncodable-vec into items h = AllEncodable-values_from into items h
