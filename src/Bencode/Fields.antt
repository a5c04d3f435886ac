-- ===== src/Bencode/Fields.antt =====
-- The fields of a dictionary, `FromValue` and `IntoValue` of bt/src/bencode/value.rs. An instance of
-- `FromValue` is the function that a field is read with.
pub mod Laws
pub mod Maps
pub mod Encodable
pub mod Known
pub mod Inverse
use rust_torrent_client.Prelude.{
  ℕ, zero, suc, ◌+◌, ◌-◌, ◌%◌, List, [], ◌∷◌, ◌++◌, Option, none, some, Bytes, ltb, if◌then◌else◌,
  Outcome, ok, err, ◌>>=◌, u64_mod,
}
use rust_torrent_client.Peer.Handshake.{bytes_eq}
use rust_torrent_client.Bencode.Decimal.{ℤ, pos, negsuc, i64_max}
use rust_torrent_client.Bencode.Utf8.{is_utf8}
use rust_torrent_client.Bencode.Encode.{
  Value, integer, bytes, string, list, dict, Values, empty_list, value, Entries, empty_map, entry,
  insert,
}
use rust_torrent_client.Bencode.Decode.{
  DecodeError, extraneous_data, invalid_dict, invalid_utf8, missing_field,
}

abbrev pub FromValue : Type 0 → Type 0
FromValue A = Value → Outcome DecodeError A

-- `BTreeMap::get`
unfoldable pub lookup : Bytes → Entries → Option Value
lookup key empty_map = none
lookup key (entry k v map) = if bytes_eq k key then some v else lookup key map

abbrev pub or_missing : Bytes → Option Value → Outcome DecodeError Value
or_missing key none = err (missing_field key)
or_missing key (some v) = ok v

unfoldable pub get_value : Bytes → Value → Outcome DecodeError Value
get_value key (dict map) = or_missing key (lookup key map)
get_value key _ = err invalid_dict

unfoldable pub get_option_value : Bytes → Value → Outcome DecodeError (Option Value)
get_option_value key (dict map) = ok (lookup key map)
get_option_value key _ = err invalid_dict

unfoldable pub get_field : {A : Type 0} → FromValue A → Bytes → Value → Outcome DecodeError A
get_field from key (dict map) = do v ← or_missing key (lookup key map); from v
get_field from key _ = err invalid_dict

abbrev pub from_option : {A : Type 0} → FromValue A → Option Value → Outcome DecodeError (Option A)
from_option from none = ok none
from_option from (some v) = do a ← from v; ok (some a)

unfoldable pub get_option_field :
    {A : Type 0} → FromValue A → Bytes → Value → Outcome DecodeError (Option A)
get_option_field from key (dict map) = from_option from (lookup key map)
get_option_field from key _ = err invalid_dict

-- `from_value` for `String`
unfoldable pub string_from_value : FromValue Bytes
string_from_value (bytes b) = if is_utf8 b then ok b else err invalid_utf8
string_from_value (string s) = ok s
string_from_value _ = err extraneous_data

-- `from_value` for `Vec<T>`
unfoldable pub items_from_values :
    {A : Type 0} → FromValue A → Values → Outcome DecodeError (List A)
items_from_values from empty_list = ok []
items_from_values from (value v values) = do
  t ← from v
  res ← items_from_values from values
  ok (t ∷ res)

unfoldable pub vec_from_value : {A : Type 0} → FromValue A → FromValue (List A)
vec_from_value from (list values) = items_from_values from values
vec_from_value from _ = err extraneous_data

-- `i as u64`, or as a shorter unsigned type.
abbrev pub wrap : ℕ → ℤ → ℕ
wrap word (pos n) = n % word
wrap word (negsuc n) = word - suc (n % word)

-- `from_value` for an unsigned integer type
unfoldable pub unsigned_from_value : ℕ → FromValue ℕ
unsigned_from_value word (integer i) = ok (wrap word i)
unsigned_from_value word _ = err extraneous_data

-- `n as i64` of a `u64`, and `into_value`
abbrev pub wrap_i64 : ℕ → ℤ
wrap_i64 n = if ltb n i64_max then pos n else negsuc (u64_mod - suc n)

unfoldable pub unsigned_into_value : ℕ → Value
unsigned_into_value n = integer (wrap_i64 n)

-- `into_value` for `Vec<Sha1>`
unfoldable pub concat : List Bytes → Bytes
concat [] = []
concat (hash ∷ hashes) = hash ++ concat hashes

unfoldable pub hashes_into_value : List Bytes → Value
hashes_into_value hashes = bytes (concat hashes)

-- `into_value` for `Vec<T>`
unfoldable pub values_from : {A : Type 0} → (A → Value) → List A → Values
values_from into [] = empty_list
values_from into (item ∷ items) = value (into item) (values_from into items)

unfoldable pub vec_into_value : {A : Type 0} → (A → Value) → List A → Value
vec_into_value into items = list (values_from into items)

-- `insert_option` of bt/src/base/meta_info.rs
unfoldable pub insert_option : {A : Type 0} → (A → Value) → Bytes → Option A → Entries → Entries
insert_option into key none map = map
insert_option into key (some a) map = insert key (into a) map
