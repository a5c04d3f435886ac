-- ===== src/Bencode/Encode.antt =====
-- `Value` of bt/src/bencode/value.rs and its encoding, bt/src/bencode/encode.rs.
use rust_torrent_client.Prelude.{[], ◌∷◌, ◌++◌, Bytes, compare, Ordering, length}
use rust_torrent_client.Bencode.Decimal.{ℤ, print, print_int}

-- The values of bencode. A list is `Values`, and a `BTreeMap` is `Entries`, in the order of the
-- keys. A string is its bytes.
mutual
  pub data Value : Type 0 where
    integer : ℤ → Value
    bytes : Bytes → Value
    string : Bytes → Value
    list : Values → Value
    dict : Entries → Value

  pub data Values : Type 0 where
    empty_list : Values
    value : Value → Values → Values

  pub data Entries : Type 0 where
    empty_map : Entries
    entry : Bytes → Value → Entries → Entries

-- The order of `String`s: that of their bytes.
unfoldable pub then_compare : Ordering → Ordering → Ordering
then_compare Ordering.lt rest = Ordering.lt
then_compare Ordering.eq rest = rest
then_compare Ordering.gt rest = Ordering.gt

unfoldable pub compare_bytes : Bytes → Bytes → Ordering
compare_bytes [] [] = Ordering.eq
compare_bytes [] (y ∷ ys) = Ordering.lt
compare_bytes (x ∷ xs) [] = Ordering.gt
compare_bytes (x ∷ xs) (y ∷ ys) = then_compare (compare x y) (compare_bytes xs ys)

-- `BTreeMap::insert`: a key that is there gets the new value.
unfoldable pub insert_at : Ordering → Bytes → Value → Bytes → Value → Entries → Entries → Entries
insert_at Ordering.lt k v k' v' entries inserted = entry k' v' inserted
insert_at Ordering.eq k v k' v' entries inserted = entry k' v entries
insert_at Ordering.gt k v k' v' entries inserted = entry k v (entry k' v' entries)

unfoldable pub insert : Bytes → Value → Entries → Entries
insert k v empty_map = entry k v empty_map
insert k v (entry k' v' entries) =
    insert_at (compare_bytes k' k) k v k' v' entries (insert k v entries)

unfoldable pub write_integer : ℤ → Bytes
write_integer n = 105 ∷ (print_int n ++ 101 ∷ [])

unfoldable pub write_bytes : Bytes → Bytes
write_bytes b = print (length b) ++ (58 ∷ b)

-- `encode`, with the loops of `write_list` and `write_dict`.
unfoldable mutual
  pub encode : Value → Bytes
  encode (integer n) = write_integer n
  encode (bytes b) = write_bytes b
  encode (string s) = write_bytes s
  encode (list values) = 108 ∷ (write_list values ++ 101 ∷ [])
  encode (dict entries) = 100 ∷ (write_dict entries ++ 101 ∷ [])

  pub write_list : Values → Bytes
  write_list empty_list = []
  write_list (value v values) = encode v ++ write_list values

  pub write_dict : Entries → Bytes
  write_dict empty_map = []
  write_dict (entry k v entries) = write_bytes k ++ (encode v ++ write_dict entries)
