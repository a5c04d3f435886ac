-- ===== src/Meta/Inverse.antt =====
-- What is read of the information on the files, bt/src/base/meta_info.rs, is written back as it was.
use rust_torrent_client.Prelude.{
  ◌≡◌, refl, subst, Option, none, some, true, Bytes, Outcome, Ensures, holds, failed, Ensures-bind,
  u64_mod,
}
use mathlib.Core.Option
use rust_torrent_client.Bencode.Encode.{
  Value, Values, empty_list, value, integer, bytes, string, list, dict, Entries,
}
use rust_torrent_client.Bencode.Decode.{DecodeError}
use rust_torrent_client.Bencode.Hash.{hashes_from_value}
use rust_torrent_client.Bencode.RoundTrip.{IsEncodable, AllEncodable, MapEncodable}
use rust_torrent_client.Bencode.Fields.{
  lookup, get_field, get_option_value, get_option_field, string_from_value, vec_from_value,
  unsigned_from_value, unsigned_into_value, hashes_into_value, vec_into_value,
}
use rust_torrent_client.Bencode.Fields.Known.{only_keys}
use rust_torrent_client.Bencode.Fields.Inverse.{
  Inverts, get_field-Inverts, get_option_field-Inverts, string_from_value-Inverts,
  unsigned_from_value-Inverts, hashes_from_value-Inverts, vec_from_value-Inverts, IsWhole, AllOf,
  IsEncodable-AllOf, AllValues,
}
use rust_torrent_client.Meta.Keys.{
  length_key, md5sum_key, path_key, files_key, name_key, piece_length_key, pieces_key,
}
use rust_torrent_client.Meta.{
  file_from_value, file_into_value, info_from_value, info_arm, info_into_value, single_from_value,
  multi_from_value,
}
use rust_torrent_client.Meta.Same.{
  file_keys, single_keys, KnownFile, Holds, KnownMap, KnownInfo, field_encodable, file_same,
  single_same, multi_same,
}

module _ (map : Entries) (m : MapEncodable map) where
  -- The fields of the metadata, each read and written back.
  abbrev ReadsField : {A : Type 0} → (A → Value) → Bytes → Outcome DecodeError A → Type 0
  ReadsField into key r = Ensures (λ a. lookup key map ≡ some (into a)) r

  number_field :
      (key : Bytes)
      → ReadsField unsigned_into_value key (get_field (unsigned_from_value u64_mod) key (dict map))
  number_field key =
      get_field-Inverts (unsigned_from_value u64_mod) unsigned_into_value key map
        λ v e. unsigned_from_value-Inverts v (field_encodable map m key v e)

  text_field : (key : Bytes) → ReadsField string key (get_field string_from_value key (dict map))
  text_field key =
      get_field-Inverts string_from_value string key map
        λ v e. string_from_value-Inverts v (field_encodable map m key v e)

  optional_text_field :
      (key : Bytes)
      → Ensures
          (λ o. lookup key map ≡ Option.map string o)
          (get_option_field string_from_value key (dict map))
  optional_text_field key =
      get_option_field-Inverts string_from_value string key map
        λ v e. string_from_value-Inverts v (field_encodable map m key v e)

  texts_field :
      (key : Bytes)
      → ReadsField
          (vec_into_value string)
          key
          (get_field (vec_from_value string_from_value) key (dict map))
  texts_field key =
      get_field-Inverts (vec_from_value string_from_value) (vec_into_value string) key map λ v e.
        vec_from_value-Inverts string_from_value string v
          (IsEncodable-AllOf _ v string_from_value-Inverts (field_encodable map m key v e))

  hashes_field :
      (key : Bytes)
      → Holds IsWhole (lookup key map)
      → ReadsField hashes_into_value key (get_field hashes_from_value key (dict map))
  hashes_field key whole =
      get_field-Inverts hashes_from_value hashes_into_value key map
        λ v e. hashes_from_value-Inverts v (subst (Holds IsWhole) e whole)

  dict_file :
      only_keys file_keys map ≡ true
      → Inverts file_into_value (dict map) (file_from_value (dict map))
  unfolding file_from_value
  dict_file known = Ensures-bind (number_field length_key) λ len len_at.
      Ensures-bind (optional_text_field md5sum_key) λ md5sum md5sum_at.
        Ensures-bind (texts_field path_key)
          λ path path_at. holds (file_same map m _ known len_at md5sum_at path_at)

  dict_single :
      only_keys single_keys map ≡ true
      → Holds IsWhole (lookup pieces_key map)
      → Inverts info_into_value (dict map) (single_from_value (dict map))
  unfolding single_from_value
  dict_single known whole = Ensures-bind (number_field length_key) λ len len_at.
      Ensures-bind (optional_text_field md5sum_key) λ md5sum md5sum_at.
        Ensures-bind (text_field name_key) λ name name_at.
          Ensures-bind (number_field piece_length_key) λ piece_length piece_length_at.
            Ensures-bind (hashes_field pieces_key whole) λ pieces pieces_at.
              holds (single_same map m _ known len_at md5sum_at name_at piece_length_at pieces_at)

file_Inverts :
    (v : Value) → IsEncodable v → KnownFile v → Inverts file_into_value v (file_from_value v)
unfolding IsEncodable MapEncodable file_from_value get_field
file_Inverts (integer i) w known = failed
file_Inverts (bytes b) w known = failed
file_Inverts (string s) w known = failed
file_Inverts (list values) w known = failed
file_Inverts (dict map) w known = dict_file map w known

all_files :
    (values : Values)
    → AllEncodable values
    → AllValues KnownFile values
    → AllValues (λ v. Inverts file_into_value v (file_from_value v)) values
unfolding AllEncodable IsEncodable
all_files empty_list w known = tt
all_files (value v values) w known = (file_Inverts v w.0 known.0, all_files values w.1 known.1)

files_Inverts :
    (v : Value)
    → IsEncodable v
    → AllOf KnownFile v
    → Inverts (vec_into_value file_into_value) v (vec_from_value file_from_value v)
unfolding IsEncodable AllEncodable
files_Inverts v w known = vec_from_value-Inverts file_from_value file_into_value v (of v w known)
  where
    of :
        (v : Value)
        → IsEncodable v
        → AllOf KnownFile v
        → AllOf (λ item. Inverts file_into_value item (file_from_value item)) v
    of (integer i) w known = tt
    of (bytes b) w known = tt
    of (string s) w known = tt
    of (list values) w known = all_files values w known
    of (dict map) w known = tt

module _ (map : Entries) (m : MapEncodable map) where
  dict_multi :
      (files : Value)
      → lookup files_key map ≡ some files
      → KnownMap (some files) map
      → Inverts info_into_value (dict map) (multi_from_value (dict map))
  unfolding multi_from_value
  dict_multi files at (known, whole, files_known) =
      Ensures-bind
        (get_field-Inverts (vec_from_value file_from_value) (vec_into_value file_into_value)
          files_key map
          λ v e.
            files_Inverts v (field_encodable map m files_key v e)
              (subst (AllOf KnownFile) (cc (at, e)) files_known))
        λ all_of files_at. Ensures-bind (text_field map m name_key) λ name name_at.
          Ensures-bind (number_field map m piece_length_key) λ piece_length piece_length_at.
            Ensures-bind (hashes_field map m pieces_key whole) λ pieces pieces_at.
              holds (multi_same map m _ known files_at name_at piece_length_at pieces_at)

  dict_info :
      KnownMap (lookup files_key map) map
      → Inverts info_into_value (dict map) (info_from_value (dict map))
  unfolding info_from_value get_option_value
  dict_info known = arm (lookup files_key map) refl known
    where
      arm :
          (o : Option Value)
          → lookup files_key map ≡ o
          → KnownMap o map
          → Inverts info_into_value (dict map) (info_arm o (dict map))
      arm none e known = dict_single map m known.0 known.1
      arm (some files) e known = dict_multi files e known

pub info_from_value-Inverts :
    (v : Value) → IsEncodable v → KnownInfo v → Inverts info_into_value v (info_from_value v)
unfolding IsEncodable MapEncodable info_from_value get_option_value
info_from_value-Inverts (integer i) w known = failed
info_from_value-Inverts (bytes b) w known = failed
info_from_value-Inverts (string s) w known = failed
info_from_value-Inverts (list values) w known = failed
info_from_value-Inverts (dict map) w known = dict_info map w known
