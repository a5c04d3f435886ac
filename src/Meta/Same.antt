-- ===== src/Meta/Same.antt =====
-- `into_value` of bt/src/base/meta_info.rs, for the information on the files and for a file, makes the
-- map that the fields were read from, if that has no other keys.
use rust_torrent_client.Prelude.{
  ◌≡◌, refl, sym, ap, ◌∙◌, List, [], ◌∷◌, Option, none, some, true, Bytes, arith,
}
use mathlib.Core.Option
use rust_torrent_client.Bencode.Utf8
use rust_torrent_client.Bencode.Utf8.{is_utf8}
use rust_torrent_client.Peer.Handshake.{bytes_eq}
use rust_torrent_client.Bencode.Encode.{Value, string, dict, Entries, empty_map, insert}
use rust_torrent_client.Bencode.RoundTrip.{IsEncodable, MapEncodable}
use rust_torrent_client.Bencode.Fields.{
  lookup, unsigned_into_value, hashes_into_value, vec_into_value, insert_option,
}
use rust_torrent_client.Bencode.Fields.Encodable.{MapEncodable-insert_option}
use rust_torrent_client.Bencode.Fields.Maps.{lookup-insert_self, passed, found, skipped}
use rust_torrent_client.Bencode.Fields.Known.{
  only_keys, known_maps_equal, only_keys-insert, only_keys-insert_option, lookup-MapEncodable,
  lookup_empty,
}
use rust_torrent_client.Bencode.Fields.Inverse.{IsWhole, AllOf}
use rust_torrent_client.Meta.Keys.{
  length_key, md5sum_key, path_key, files_key, name_key, piece_length_key, pieces_key,
}
use rust_torrent_client.Meta.{
  FileInfo, SingleInfo, MultiInfo, single, multi, file_into_value, info_into_value,
}
use rust_torrent_client.Meta.Parse.{written, empty}

abbrev pub file_keys : List Bytes
file_keys = length_key ∷ md5sum_key ∷ path_key ∷ []

abbrev pub single_keys : List Bytes
single_keys = length_key ∷ md5sum_key ∷ name_key ∷ piece_length_key ∷ pieces_key ∷ []

abbrev pub multi_keys : List Bytes
multi_keys = files_key ∷ name_key ∷ piece_length_key ∷ pieces_key ∷ []

abbrev pub KnownFile : Value → Type 0
KnownFile (dict map) = only_keys file_keys map ≡ true
KnownFile _ = Unit

-- The value has no keys but those that the client reads, and whole hashes.
abbrev pub Holds : (Value → Type 0) → Option Value → Type 0
Holds P none = Unit
Holds P (some v) = P v

abbrev pub KnownMap : Option Value → Entries → Type 0
KnownMap none map = (only_keys single_keys map ≡ true) × Holds IsWhole (lookup pieces_key map)
KnownMap (some files) map =
    (only_keys multi_keys map ≡ true)
    × Holds IsWhole (lookup pieces_key map)
    × AllOf KnownFile files

abbrev pub KnownInfo : Value → Type 0
KnownInfo (dict map) = KnownMap (lookup files_key map) map
KnownInfo _ = Unit

-- The field `md5sum`, when the value under it can be encoded.
text_encodable :
    (key : Bytes) (map : Entries) (o : Option Bytes)
    → MapEncodable map
    → lookup key map ≡ Option.map string o
    → (a : Bytes) → o ≡ some a
    → IsEncodable (string a)
text_encodable key map o m e a is =
    lookup-MapEncodable key map (string a) m (e ∙ ap (Option.map string) is)

module _ (map : Entries) (m : MapEncodable map) where
  abbrev pub field_encodable : (key : Bytes) (v : Value) → lookup key map ≡ some v → IsEncodable v
  field_encodable key v e = lookup-MapEncodable key map v m e

  pub file_same :
      (f : FileInfo)
      → only_keys file_keys map ≡ true
      → lookup length_key map ≡ some (unsigned_into_value f.length)
      → lookup md5sum_key map ≡ Option.map string f.md5sum
      → lookup path_key map ≡ some (vec_into_value string f.path)
      → file_into_value f ≡ dict map
  unfolding file_into_value bytes_eq is_utf8 Utf8.run Utf8.next_byte Utf8.first_byte only_keys
  file_same f known len_at md5sum_at path_at = ap dict (
      known_maps_equal file_keys
        (insert path_key (vec_into_value string f.path) (
          insert_option string md5sum_key f.md5sum
            (insert length_key (unsigned_into_value f.length) empty_map)))
        map
        (written path_key _ _ refl (omega arith) (field_encodable path_key _ path_at) (
          MapEncodable-insert_option string md5sum_key f.md5sum _ (refl, omega arith)
            (text_encodable md5sum_key map f.md5sum m md5sum_at)
            (written length_key _ _ refl (omega arith) (field_encodable length_key _ len_at)
              empty)))
        m
        (only_keys-insert file_keys path_key _ _ refl (
          only_keys-insert_option file_keys string md5sum_key f.md5sum _ refl
            (only_keys-insert file_keys length_key _ _ refl refl)))
        known
        (
          passed length_key path_key _ _ refl (
                skipped string length_key md5sum_key f.md5sum _ refl
                  (lookup-insert_self length_key _ empty_map))
              ∙ sym len_at,
          (
            passed md5sum_key path_key _ _ refl (
                  found string md5sum_key f.md5sum _
                    (passed md5sum_key length_key _ empty_map refl (lookup_empty md5sum_key)))
                ∙ sym md5sum_at,
            (lookup-insert_self path_key _ _ ∙ sym path_at, tt),
          ),
        ))

  pub single_same :
      (s : SingleInfo)
      → only_keys single_keys map ≡ true
      → lookup length_key map ≡ some (unsigned_into_value s.length)
      → lookup md5sum_key map ≡ Option.map string s.md5sum
      → lookup name_key map ≡ some (string s.name)
      → lookup piece_length_key map ≡ some (unsigned_into_value s.piece_length)
      → lookup pieces_key map ≡ some (hashes_into_value s.pieces)
      → info_into_value (single s) ≡ dict map
  unfolding info_into_value bytes_eq is_utf8 Utf8.run Utf8.next_byte Utf8.first_byte only_keys
  single_same s known len_at md5sum_at name_at piece_length_at pieces_at =
      let with_md5sum = insert_option string md5sum_key s.md5sum empty_map in
      let with_length = insert length_key (unsigned_into_value s.length) with_md5sum in
      let with_pieces = insert pieces_key (hashes_into_value s.pieces) with_length in
      let with_name = insert name_key (string s.name) with_pieces in
      let with_all = insert piece_length_key (unsigned_into_value s.piece_length) with_name in
      ap dict (
        known_maps_equal single_keys with_all map
          (written piece_length_key _ with_name refl (omega arith)
            (field_encodable piece_length_key _ piece_length_at)
            (written name_key _ with_pieces refl (omega arith) (field_encodable name_key _ name_at)
              (written pieces_key _ with_length refl (omega arith)
                (field_encodable pieces_key _ pieces_at)
                (written length_key _ with_md5sum refl (omega arith)
                  (field_encodable length_key _ len_at)
                  (MapEncodable-insert_option string md5sum_key s.md5sum empty_map
                    (refl, omega arith) (text_encodable md5sum_key map s.md5sum m md5sum_at)
                    empty)))))
          m
          (only_keys-insert single_keys piece_length_key _ with_name refl (
            only_keys-insert single_keys name_key _ with_pieces refl (
              only_keys-insert single_keys pieces_key _ with_length refl (
                only_keys-insert single_keys length_key _ with_md5sum refl (
                  only_keys-insert_option single_keys string md5sum_key s.md5sum empty_map refl
                    refl)))))
          known
          (
            passed length_key piece_length_key _ with_name refl (
                  passed length_key name_key _ with_pieces refl (
                    passed length_key pieces_key _ with_length refl
                      (lookup-insert_self length_key _ with_md5sum)))
                ∙ sym len_at,
            (
              passed md5sum_key piece_length_key _ with_name refl (
                    passed md5sum_key name_key _ with_pieces refl (
                      passed md5sum_key pieces_key _ with_length refl (
                        passed md5sum_key length_key _ with_md5sum refl
                          (found string md5sum_key s.md5sum empty_map (lookup_empty md5sum_key)))))
                  ∙ sym md5sum_at,
              (
                passed name_key piece_length_key _ with_name refl
                      (lookup-insert_self name_key _ with_pieces)
                    ∙ sym name_at,
                (
                  lookup-insert_self piece_length_key _ with_name ∙ sym piece_length_at,
                  (
                    passed pieces_key piece_length_key _ with_name refl (
                          passed pieces_key name_key _ with_pieces refl
                            (lookup-insert_self pieces_key _ with_length))
                        ∙ sym pieces_at,
                    tt,
                  ),
                ),
              ),
            ),
          ))

  pub multi_same :
      (s : MultiInfo)
      → only_keys multi_keys map ≡ true
      → lookup files_key map ≡ some (vec_into_value file_into_value s.files)
      → lookup name_key map ≡ some (string s.name)
      → lookup piece_length_key map ≡ some (unsigned_into_value s.piece_length)
      → lookup pieces_key map ≡ some (hashes_into_value s.pieces)
      → info_into_value (multi s) ≡ dict map
  unfolding info_into_value bytes_eq is_utf8 Utf8.run Utf8.next_byte Utf8.first_byte only_keys
  multi_same s known files_at name_at piece_length_at pieces_at =
      let with_files = insert files_key (vec_into_value file_into_value s.files) empty_map in
      let with_pieces = insert pieces_key (hashes_into_value s.pieces) with_files in
      let with_name = insert name_key (string s.name) with_pieces in
      let with_all = insert piece_length_key (unsigned_into_value s.piece_length) with_name in
      ap dict (
        known_maps_equal multi_keys with_all map
          (written piece_length_key _ with_name refl (omega arith)
            (field_encodable piece_length_key _ piece_length_at)
            (written name_key _ with_pieces refl (omega arith) (field_encodable name_key _ name_at)
              (written pieces_key _ with_files refl (omega arith)
                (field_encodable pieces_key _ pieces_at)
                (written files_key _ empty_map refl (omega arith)
                  (field_encodable files_key _ files_at) empty))))
          m
          (only_keys-insert multi_keys piece_length_key _ with_name refl (
            only_keys-insert multi_keys name_key _ with_pieces refl (
              only_keys-insert multi_keys pieces_key _ with_files refl
                (only_keys-insert multi_keys files_key _ empty_map refl refl))))
          known
          (
            passed files_key piece_length_key _ with_name refl (
                  passed files_key name_key _ with_pieces refl (
                    passed files_key pieces_key _ with_files refl
                      (lookup-insert_self files_key _ empty_map)))
                ∙ sym files_at,
            (
              passed name_key piece_length_key _ with_name refl
                    (lookup-insert_self name_key _ with_pieces)
                  ∙ sym name_at,
              (
                lookup-insert_self piece_length_key _ with_name ∙ sym piece_length_at,
                (
                  passed pieces_key piece_length_key _ with_name refl (
                        passed pieces_key name_key _ with_pieces refl
                          (lookup-insert_self pieces_key _ with_files))
                      ∙ sym pieces_at,
                  tt,
                ),
              ),
            ),
          ))
