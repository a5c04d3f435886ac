-- ===== src/Bencode/Fields/Known.antt =====
-- Maps of bencode that have the same values at the same keys are the same.
use rust_torrent_client.Prelude.{
  ◌≡◌, refl, sym, ap, subst, ◌∙◌, List, [], ◌∷◌, Option, none, some, Bool, true, false, Bytes, All,
  Bool-cases, inl, inr, Ordering, any, if◌then◌else◌, arith,
}
use rust_torrent_client.Peer.Handshake.{bytes_eq}
use rust_torrent_client.Peer.Handshake.Agree.{bytes_eq_iff}
use rust_torrent_client.Bencode.Encode.{
  Value, Entries, empty_map, entry, insert, insert_at, compare_bytes,
}
use rust_torrent_client.Bencode.RoundTrip.{IsEncodable, MapEncodable}
use rust_torrent_client.Bencode.RoundTrip.Maps.{AllAfter}
use rust_torrent_client.Bencode.Fields.{lookup, insert_option}
use rust_torrent_client.Bencode.Fields.Maps.{is_eq, bytes_eq-compare_bytes}
use rust_torrent_client.Bencode.Fields.Encodable.{later_trans, flip, flip-compare_bytes}

lookup-AllAfter : (k : Bytes) (map : Entries) → AllAfter k map → lookup k map ≡ none
unfolding lookup
lookup-AllAfter k empty_map h = refl
lookup-AllAfter k (entry k' v map) h =
    let other : bytes_eq k' k ≡ false =
      bytes_eq-compare_bytes k' k ∙ ap is_eq (flip-compare_bytes k k' ∙ ap flip h.0) in
    rw other (lookup-AllAfter k map h.1)

lookup-head : (k : Bytes) (v : Value) (map : Entries) → lookup k (entry k v map) ≡ some v
unfolding lookup
lookup-head k v map = rw ((bytes_eq_iff k k).1 refl)

pub lookup_empty : (k : Bytes) → lookup k empty_map ≡ none
unfolding lookup
lookup_empty k = refl

pub lookup-MapEncodable :
    (k : Bytes) (map : Entries) (v : Value)
    → MapEncodable map
    → lookup k map ≡ some v
    → IsEncodable v
unfolding lookup MapEncodable IsEncodable
lookup-MapEncodable k empty_map v m e = cc
lookup-MapEncodable k (entry k' v' map) v m e = elim (Bool-cases (bytes_eq k' k)) [
  | inl same ↦ subst IsEncodable (ground (arith, e, same)) m.3
  | inr other ↦ lookup-MapEncodable k map v m.4 (ground (arith, e, other))
]

-- Behind the first key of two maps.
lookup-rest :
    (k j : Bytes) (v : Value) (e f : Entries)
    → AllAfter k e
    → AllAfter k f
    → lookup j (entry k v e) ≡ lookup j (entry k v f)
    → lookup j e ≡ lookup j f
unfolding lookup
lookup-rest k j v e f a b h = elim (Bool-cases (bytes_eq k j)) [
  | inl same ↦
      let is = (bytes_eq_iff k j).0 same in
      rw (← is) (lookup-AllAfter k e a ∙ sym (lookup-AllAfter k f b))
  | inr other ↦ ground (arith, h, other)
]

entries_equal :
    (k : Bytes) (v : Value) (e : Entries) (k' : Bytes) (v' : Value) (f : Entries)
    → AllAfter k e
    → AllAfter k' f
    → (((j : Bytes) → lookup j e ≡ lookup j f) → e ≡ f)
    → ((j : Bytes) → lookup j (entry k v e) ≡ lookup j (entry k' v' f))
    → (o : Ordering) → compare_bytes k k' ≡ o
    → entry k v e ≡ entry k' v' f
entries_equal k v e k' v' f a b rest h Ordering.lt c =
    let absent : lookup k (entry k' v' f) ≡ none =
      lookup-AllAfter k (entry k' v' f) (c, later_trans k k' f c b) in
    cc (lookup-head k v e, h k, absent)
entries_equal k v e k' v' f a b rest h Ordering.gt c =
    let before = flip-compare_bytes k k' ∙ ap flip c in
    let absent : lookup k' (entry k v e) ≡ none =
      lookup-AllAfter k' (entry k v e) (before, later_trans k' k e before a) in
    cc (lookup-head k' v' f, h k', absent)
entries_equal k v e k' v' f a b rest h Ordering.eq c =
    let same : k ≡ k' = (bytes_eq_iff k k').0 (bytes_eq-compare_bytes k k' ∙ ap is_eq c) in
    let value_same : v ≡ v' = cc (lookup-head k v e, h k, lookup-head k' v' f, same) in
    let tail : e ≡ f = rest λ j.
      lookup-rest k j v e f a (subst (λ x. AllAfter x f) (sym same) b)
        (h j ∙ cc (same, value_same)) in
    cc (same, value_same, tail)

-- Maps in the order of their keys with the same lookups are equal.
pub maps_equal :
    (e f : Entries)
    → MapEncodable e
    → MapEncodable f
    → ((k : Bytes) → lookup k e ≡ lookup k f)
    → e ≡ f
unfolding MapEncodable IsEncodable
maps_equal empty_map empty_map m n h = refl
maps_equal empty_map (entry k v f) m n h = cc (lookup-head k v f, h k, lookup_empty k)
maps_equal (entry k v e) empty_map m n h = cc (lookup-head k v e, h k, lookup_empty k)
maps_equal (entry k v e) (entry k' v' f) m n h =
    entries_equal k v e k' v' f m.2 n.2 (maps_equal e f m.4 n.4) h (compare_bytes k k') refl

-- Every key of the map is one of those listed.
abbrev pub has_key : Bytes → List Bytes → Bool
has_key k keys = any (bytes_eq k) keys

unfoldable pub only_keys : List Bytes → Entries → Bool
only_keys keys empty_map = true
only_keys keys (entry k v map) = if has_key k keys then only_keys keys map else false

lookup-only_keys :
    (keys : List Bytes) (key : Bytes) (map : Entries)
    → only_keys keys map ≡ true
    → has_key key keys ≡ false
    → lookup key map ≡ none
unfolding only_keys lookup
lookup-only_keys keys key empty_map h unknown = refl
lookup-only_keys keys key (entry k v map) h unknown = elim (Bool-cases (bytes_eq k key)) [
  | inl same ↦
      let is = (bytes_eq_iff k key).0 same in
      let known : has_key k keys ≡ false = ap (λ x. has_key x keys) is ∙ unknown in
      ground (arith, h, known)
  | inr other ↦ rw other (lookup-only_keys keys key map (ground (arith, h)) unknown)
]

lookup-known :
    (keys : List Bytes) (key : Bytes) (e f : Entries)
    → All (λ k. lookup k e ≡ lookup k f) keys
    → has_key key keys ≡ true
    → lookup key e ≡ lookup key f
lookup-known [] key e f h known = cc
lookup-known (k ∷ keys) key e f h known = elim (Bool-cases (bytes_eq key k)) [
  | inl same ↦ let is = (bytes_eq_iff key k).0 same in rw is h.0
  | inr other ↦ lookup-known keys key e f h.1 (ground (arith, known, other))
]

-- Maps with known keys only are equal if they agree on these.
pub known_maps_equal :
    (keys : List Bytes) (e f : Entries)
    → MapEncodable e
    → MapEncodable f
    → only_keys keys e ≡ true
    → only_keys keys f ≡ true
    → All (λ k. lookup k e ≡ lookup k f) keys
    → e ≡ f
known_maps_equal keys e f m n only_e only_f h = maps_equal e f m n λ key.
    elim (Bool-cases (has_key key keys)) [
      | inl known ↦ lookup-known keys key e f h known
      | inr unknown ↦
          lookup-only_keys keys key e only_e unknown
          ∙ sym (lookup-only_keys keys key f only_f unknown)
    ]

only_keys-insert_at :
    (keys : List Bytes) (k : Bytes) (v : Value) (k' : Bytes) (v' : Value) (map inserted : Entries)
    (o : Ordering)
    → has_key k keys ≡ true
    → only_keys keys (entry k' v' map) ≡ true
    → only_keys keys inserted ≡ true
    → only_keys keys (insert_at o k v k' v' map inserted) ≡ true
unfolding only_keys insert_at
only_keys-insert_at keys k v k' v' map inserted Ordering.lt known h i = ground (arith, h, i)
only_keys-insert_at keys k v k' v' map inserted Ordering.eq known h i = h
only_keys-insert_at keys k v k' v' map inserted Ordering.gt known h i = rw known h

pub only_keys-insert :
    (keys : List Bytes) (k : Bytes) (v : Value) (map : Entries)
    → has_key k keys ≡ true
    → only_keys keys map ≡ true
    → only_keys keys (insert k v map) ≡ true
unfolding only_keys insert
only_keys-insert keys k v empty_map known h = rw known
only_keys-insert keys k v (entry k' v' map) known h =
    only_keys-insert_at keys k v k' v' map (insert k v map) (compare_bytes k' k) known h
      (only_keys-insert keys k v map known (ground (arith, h)))

pub only_keys-insert_option :
    {A : Type 0} (keys : List Bytes) (into : A → Value) (k : Bytes) (o : Option A) (map : Entries)
    → has_key k keys ≡ true
    → only_keys keys map ≡ true
    → only_keys keys (insert_option into k o map) ≡ true
unfolding insert_option
only_keys-insert_option keys into k none map known h = h
only_keys-insert_option keys into k (some a) map known h =
    only_keys-insert keys k (into a) map known h
