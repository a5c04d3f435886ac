-- ===== src/Meta.antt =====
-- `TorrentMetaInfo` of bt/src/base/meta_info.rs, read from and written to a `Value`.
pub mod Keys
pub mod RoundTrip
pub mod Decode
pub mod Parse
pub mod Files
pub mod Urls
pub mod Same
pub mod Inverse
pub mod InfoHash
use rust_torrent_client.Prelude.{
  ℕ, suc, ◌+◌, List, [], ◌∷◌, ◌++◌, Option, none, some, Bytes, if◌then◌else◌, length, not, any,
  Bool, Outcome, ok, err, panic, ◌>>=◌, u64_mod, checked,
}
use rust_torrent_client.Bencode.Encode.{Value, dict, Entries, empty_map, insert, encode}
use rust_torrent_client.Bencode.Decode.{DecodeError, decode}
use rust_torrent_client.Bencode.Hash.{hashes_from_value}
use rust_torrent_client.Bencode.Encode.{string}
use rust_torrent_client.Bencode.Fields.{
  FromValue, get_field, get_option_value, get_option_field, string_from_value, vec_from_value,
  unsigned_from_value, unsigned_into_value, hashes_into_value, vec_into_value, insert_option,
}
use Keys.{
  length_key, md5sum_key, path_key, files_key, name_key, piece_length_key, pieces_key, info_key,
  announce_key, announce_list_key, comment_key, created_by_key, encoding_key,
}

pub record SingleInfo : Type 0 where
  pub length : ℕ
  pub md5sum : Option Bytes
  pub name : Bytes
  pub piece_length : ℕ
  pub pieces : List Bytes

pub record FileInfo : Type 0 where
  pub length : ℕ
  pub md5sum : Option Bytes
  pub path : List Bytes

pub record MultiInfo : Type 0 where
  pub files : List FileInfo
  pub name : Bytes
  pub piece_length : ℕ
  pub pieces : List Bytes

pub data Info : Type 0 where
  single : SingleInfo → Info
  multi : MultiInfo → Info

-- `creation_date` is left out: it is `None` wherever the code makes one.
pub record TorrentMetaInfo : Type 0 where
  pub info : Info
  pub announce : Option Bytes
  pub announce_list : Option (List (List Bytes))
  pub comment : Option Bytes
  pub created_by : Option Bytes
  pub encoding : Option Bytes

-- `FileInfo::from_value`
unfoldable pub file_from_value : FromValue FileInfo
file_from_value v = do
  len ← get_field (unsigned_from_value u64_mod) length_key v
  md5sum ← get_option_field string_from_value md5sum_key v
  path ← get_field (vec_from_value string_from_value) path_key v
  ok (record { length = len; md5sum = md5sum; path = path })

-- `FileInfo::into_value`
unfoldable pub file_into_value : FileInfo → Value
file_into_value f = dict (
    insert path_key (vec_into_value string f.path) (
      insert_option string md5sum_key f.md5sum
        (insert length_key (unsigned_into_value f.length) empty_map)))

-- The arms of `Info::from_value`.
unfoldable pub single_from_value : FromValue Info
single_from_value v = do
  len ← get_field (unsigned_from_value u64_mod) length_key v
  md5sum ← get_option_field string_from_value md5sum_key v
  name ← get_field string_from_value name_key v
  piece_length ← get_field (unsigned_from_value u64_mod) piece_length_key v
  pieces ← get_field hashes_from_value pieces_key v
  ok (
      single (record {
        length = len;
        md5sum = md5sum;
        name = name;
        piece_length = piece_length;
        pieces = pieces;
      }))

unfoldable pub multi_from_value : FromValue Info
multi_from_value v = do
  files ← get_field (vec_from_value file_from_value) files_key v
  name ← get_field string_from_value name_key v
  piece_length ← get_field (unsigned_from_value u64_mod) piece_length_key v
  pieces ← get_field hashes_from_value pieces_key v
  ok (multi (record { files = files; name = name; piece_length = piece_length; pieces = pieces }))

abbrev pub info_arm : Option Value → FromValue Info
info_arm none v = single_from_value v
info_arm (some files) v = multi_from_value v

unfoldable pub info_from_value : FromValue Info
info_from_value v = do files ← get_option_value files_key v; info_arm files v

-- `Info::into_value`
unfoldable pub info_into_value : Info → Value
info_into_value (multi m) = dict (
    insert piece_length_key (unsigned_into_value m.piece_length) (
      insert name_key (string m.name) (
        insert pieces_key (hashes_into_value m.pieces)
          (insert files_key (vec_into_value file_into_value m.files) empty_map))))
info_into_value (single s) = dict (
    insert piece_length_key (unsigned_into_value s.piece_length) (
      insert name_key (string s.name) (
        insert pieces_key (hashes_into_value s.pieces) (
          insert length_key (unsigned_into_value s.length)
            (insert_option string md5sum_key s.md5sum empty_map)))))

-- `TorrentMetaInfo::from_value`
unfoldable pub meta_from_value : FromValue TorrentMetaInfo
meta_from_value v = do
  info ← get_field info_from_value info_key v
  announce ← get_option_field string_from_value announce_key v
  announce_list ←
      get_option_field (vec_from_value (vec_from_value string_from_value)) announce_list_key v
  comment ← get_option_field string_from_value comment_key v
  created_by ← get_option_field string_from_value created_by_key v
  encoding ← get_option_field string_from_value encoding_key v
  ok (record {
    info = info;
    announce = announce;
    announce_list = announce_list;
    comment = comment;
    created_by = created_by;
    encoding = encoding;
  })

-- `TorrentMetaInfo::into_value`
unfoldable pub meta_into_value : TorrentMetaInfo → Value
meta_into_value m = dict (
    insert info_key (info_into_value m.info) (
      insert_option string encoding_key m.encoding (
        insert_option string created_by_key m.created_by (
          insert_option string comment_key m.comment (
            insert_option (vec_into_value (vec_into_value string)) announce_list_key m.announce_list
              (insert_option string announce_key m.announce empty_map))))))

abbrev pub unwrap : {A : Type 0} → Outcome DecodeError A → Outcome DecodeError A
unwrap (err e) = panic
unwrap r = r

-- `TorrentMetaInfo::parse`: what follows the value is ignored, and an error panics.
unfoldable pub parse : Bytes → Outcome DecodeError TorrentMetaInfo
parse input = unwrap do (v, rest) ← decode (suc (length input)) input; meta_from_value v

unfoldable pub info_piece_length : Info → ℕ
info_piece_length (single s) = s.piece_length
info_piece_length (multi m) = m.piece_length

unfoldable pub pieces : TorrentMetaInfo → List Bytes
pieces t = elim t.info [ single s ↦ s.pieces | multi m ↦ m.pieces ]

unfoldable pub num_pieces : TorrentMetaInfo → ℕ
num_pieces t = elim t.info [ single s ↦ length s.pieces | multi m ↦ length m.pieces ]

-- The loop of `length`, which adds in `u64`.
unfoldable pub sum_lengths : ℕ → List FileInfo → Outcome DecodeError ℕ
sum_lengths len [] = ok len
sum_lengths len (item ∷ files) = do sum ← checked u64_mod (len + item.length); sum_lengths sum files

unfoldable pub total_length : Info → Outcome DecodeError ℕ
total_length (single i) = ok i.length
total_length (multi m) = sum_lengths 0 m.files

-- `info_hash`, over the hash function of another crate.
unfoldable pub info_hash : (Bytes → Bytes) → TorrentMetaInfo → Bytes
info_hash calculate_sha1 t = calculate_sha1 (encode (info_into_value t.info))
