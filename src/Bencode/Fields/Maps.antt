-- ===== src/Bencode/Fields/Maps.antt =====
-- Looking up a key in a map that `insert` and `insert_option` built.
use rust_torrent_client.Prelude.{
  ◌≡◌, refl, ◌∙◌, [], ◌∷◌, Option, none, some, true, false, Bytes, Ordering, compare, if◌then◌else◌,
  arith, ok, Bool,
}
use mathlib.Core.Option
use rust_torrent_client.Peer.Handshake.{bytes_eq}
use rust_torrent_client.Peer.Handshake.Agree.{bytes_eq_iff}
use rust_torrent_client.Bencode.Encode.{
  Value, dict, Entries, empty_map, entry, insert, insert_at, compare_bytes, then_compare,
}
use rust_torrent_client.Bencode.Fields.{
  FromValue, lookup, get_field, get_option_field, insert_option,
}

abbrev pub is_eq : Ordering → Bool
is_eq Ordering.eq = true
is_eq _ = false

is_eq-then_compare :
    (o rest : Ordering) → is_eq (then_compare o rest) ≡ (if is_eq o then is_eq rest else false)
unfolding then_compare
is_eq-then_compare Ordering.lt rest = refl
is_eq-then_compare Ordering.eq rest = refl
is_eq-then_compare Ordering.gt rest = refl

pub bytes_eq-compare_bytes : (a b : Bytes) → bytes_eq a b ≡ is_eq (compare_bytes a b)
unfolding bytes_eq compare_bytes
bytes_eq-compare_bytes [] [] = refl
bytes_eq-compare_bytes [] (y ∷ ys) = refl
bytes_eq-compare_bytes (x ∷ xs) [] = refl
bytes_eq-compare_bytes (x ∷ xs) (y ∷ ys) =
    rw (is_eq-then_compare (compare x y) (compare_bytes xs ys))
      (ground (arith, bytes_eq-compare_bytes xs ys))

lookup-insert_at_self :
    (k : Bytes) (v : Value) (k' : Bytes) (v' : Value) (map inserted : Entries) (o : Ordering)
    → bytes_eq k' k ≡ is_eq o
    → bytes_eq k k ≡ true
    → lookup k inserted ≡ some v
    → lookup k (insert_at o k v k' v' map inserted) ≡ some v
unfolding lookup insert_at
lookup-insert_at_self k v k' v' map inserted Ordering.lt e self h = ground (arith, e, h)
lookup-insert_at_self k v k' v' map inserted Ordering.eq e self h = ground (arith, e)
lookup-insert_at_self k v k' v' map inserted Ordering.gt e self h = ground (arith, self)

pub lookup-insert_self :
    (k : Bytes) (v : Value) (map : Entries) → lookup k (insert k v map) ≡ some v
unfolding insert lookup
lookup-insert_self k v empty_map = ground (arith, (bytes_eq_iff k k).1 refl)
lookup-insert_self k v (entry k' v' map) =
    lookup-insert_at_self k v k' v' map (insert k v map) (compare_bytes k' k)
      (bytes_eq-compare_bytes k' k) ((bytes_eq_iff k k).1 refl) (lookup-insert_self k v map)

lookup-insert_at_other :
    (key k : Bytes) (v : Value) (k' : Bytes) (v' : Value) (map inserted : Entries) (o : Ordering)
    → bytes_eq k' k ≡ is_eq o
    → bytes_eq k key ≡ false
    → lookup key inserted ≡ lookup key map
    → lookup key (insert_at o k v k' v' map inserted) ≡ lookup key (entry k' v' map)
unfolding lookup insert_at
lookup-insert_at_other key k v k' v' map inserted Ordering.lt e other h = ground (arith, h)
lookup-insert_at_other key k v k' v' map inserted Ordering.eq e other h =
    let same = (bytes_eq_iff k' k).0 e in rw same (rw other refl)
lookup-insert_at_other key k v k' v' map inserted Ordering.gt e other h = ground (arith, other)

pub lookup-insert_other :
    (key k : Bytes) (v : Value) (map : Entries)
    → bytes_eq k key ≡ false
    → lookup key (insert k v map) ≡ lookup key map
unfolding insert lookup
lookup-insert_other key k v empty_map other = ground (arith, other)
lookup-insert_other key k v (entry k' v' map) other =
    lookup-insert_at_other key k v k' v' map (insert k v map) (compare_bytes k' k)
      (bytes_eq-compare_bytes k' k) other (lookup-insert_other key k v map other)

-- The same for `insert_option`, in the form in which a chain of insertions uses it.
pub found :
    {A : Type 0} (into : A → Value) (key : Bytes) (o : Option A) (map : Entries)
    → lookup key map ≡ none
    → lookup key (insert_option into key o map) ≡ Option.map into o
unfolding insert_option
found into key none map h = h
found into key (some a) map h = lookup-insert_self key (into a) map

pub skipped :
    {A : Type 0} (into : A → Value) (key k : Bytes) (o : Option A) (map : Entries)
    {r : Option Value}
    → bytes_eq k key ≡ false
    → lookup key map ≡ r
    → lookup key (insert_option into k o map) ≡ r
unfolding insert_option
skipped into key k none map other h = h
skipped into key k (some a) map other h = lookup-insert_other key k (into a) map other ∙ h

pub get_option_field-read :
    {A : Type 0} (from : FromValue A) (into : A → Value) (key : Bytes) (o : Option A)
    (map : Entries)
    → ((a : A) → o ≡ some a → from (into a) ≡ ok a)
    → lookup key map ≡ Option.map into o
    → get_option_field from key (dict map) ≡ ok o
unfolding get_option_field
get_option_field-read from into key none map read h = rw h
get_option_field-read from into key (some a) map read h = rw (h, read a refl)

pub get_field-read :
    {A : Type 0} (from : FromValue A) (key : Bytes) (map : Entries) (v : Value) (a : A)
    → from v ≡ ok a
    → lookup key map ≡ some v
    → get_field from key (dict map) ≡ ok a
unfolding get_field
get_field-read from key map v a read h = rw (h, read)

pub passed :
    (key k : Bytes) (v : Value) (map : Entries) {r : Option Value}
    → bytes_eq k key ≡ false
    → lookup key map ≡ r
    → lookup key (insert k v map) ≡ r
passed key k v map other h = lookup-insert_other key k v map other ∙ h
