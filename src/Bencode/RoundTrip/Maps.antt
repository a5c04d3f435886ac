-- ===== src/Bencode/RoundTrip/Maps.antt =====
-- Inserting keys in order into a map, as `read_dict` of bt/src/bencode/decode.rs does.
use rust_torrent_client.Prelude.{◌≡◌, refl, ap, Bytes, Ordering}
use rust_torrent_client.Bencode.Encode.{
  Value, Entries, empty_map, entry, insert, insert_at, compare_bytes,
}

-- Every key of the map comes before `k`, or after it.
abbrev pub AllBefore : Bytes → Entries → Type 0
AllBefore k empty_map = Unit
AllBefore k (entry k' v map) = (compare_bytes k' k ≡ Ordering.lt) × AllBefore k map

abbrev pub AllAfter : Bytes → Entries → Type 0
AllAfter k empty_map = Unit
AllAfter k (entry k' v map) = (compare_bytes k k' ≡ Ordering.lt) × AllAfter k map

-- A map into which keys were put in order, and what is put behind them.
abbrev pub snoc : Entries → Bytes → Value → Entries
snoc empty_map k v = entry k v empty_map
snoc (entry k' v' map) k v = entry k' v' (snoc map k v)

abbrev pub append : Entries → Entries → Entries
append empty_map more = more
append (entry k v map) more = entry k v (append map more)

pub insert-AllBefore :
    (k : Bytes) (v : Value) (map : Entries) → AllBefore k map → insert k v map ≡ snoc map k v
unfolding insert insert_at
insert-AllBefore k v empty_map h = refl
insert-AllBefore k v (entry k' v' map) h = rw h.0 (ap (entry k' v') (insert-AllBefore k v map h.1))

pub append-snoc :
    (map : Entries) (k : Bytes) (v : Value) (more : Entries)
    → append (snoc map k v) more ≡ append map (entry k v more)
append-snoc empty_map k v more = refl
append-snoc (entry k' v' map) k v more = ap (entry k' v') (append-snoc map k v more)

AllBefore-snoc :
    (k : Bytes) (map : Entries) (k' : Bytes) (v : Value)
    → AllBefore k map
    → compare_bytes k' k ≡ Ordering.lt
    → AllBefore k (snoc map k' v)
AllBefore-snoc k empty_map k' v h e = (e, tt)
AllBefore-snoc k (entry k'' v'' map) k' v h e = (h.0, AllBefore-snoc k map k' v h.1 e)

-- Every key of the second map comes after all of the first.
abbrev pub Follow : Entries → Entries → Type 0
Follow map empty_map = Unit
Follow map (entry k v more) = AllBefore k map × Follow map more

pub Follow-snoc :
    (map : Entries) (k : Bytes) (v : Value) (more : Entries)
    → Follow map more
    → AllAfter k more
    → Follow (snoc map k v) more
Follow-snoc map k v empty_map h a = tt
Follow-snoc map k v (entry k' v' more) h a =
    (AllBefore-snoc k' map k v h.0 a.0, Follow-snoc map k v more h.1 a.1)

pub append-empty_map : (map : Entries) → append map empty_map ≡ map
append-empty_map empty_map = refl
append-empty_map (entry k v map) = ap (entry k v) (append-empty_map map)

pub Follow-empty_map : (map : Entries) → Follow empty_map map
Follow-empty_map empty_map = tt
Follow-empty_map (entry k v map) = (tt, Follow-empty_map map)
