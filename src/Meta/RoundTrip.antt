-- ===== src/Meta/RoundTrip.antt =====
-- The metadata of bt/src/base/meta_info.rs that is written is read back.
use rust_torrent_client.Prelude.{
  ◌<◌, ◌≡◌, refl, ◌∙◌, false, List, [], ◌∷◌, Option, some, Bytes, All, ok, u64_mod, Option-cases,
  inl, inr,
}
use mathlib.Core.Option
use rust_torrent_client.Peer.Handshake.{bytes_eq}
use rust_torrent_client.Bencode.Encode.{
  Value, Entries, empty_map, string, insert, insert_at, compare_bytes, then_compare,
}
use rust_torrent_client.Bencode.Fields.Maps.{
  lookup-insert_self, lookup-insert_other, found, skipped, get_field-read, get_option_field-read,
}
use rust_torrent_client.Meta.Keys.{
  info_key, announce_key, announce_list_key, comment_key, created_by_key, encoding_key,
}
use rust_torrent_client.Bencode.Fields.{
  lookup, get_field, get_option_value, get_option_field, insert_option, string_from_value,
  vec_from_value, vec_into_value,
}
use rust_torrent_client.Bencode.Fields.Laws.{
  IsHash, unsigned_from_value-into_value, hashes_from_value-into_value,
  items_from_values-values_from,
}
use rust_torrent_client.Meta.{
  SingleInfo, FileInfo, MultiInfo, Info, single, multi, TorrentMetaInfo, file_from_value,
  file_into_value, single_from_value, multi_from_value, info_from_value, info_into_value,
  meta_from_value, meta_into_value,
}

-- The numbers fit a `u64`, and the hashes are of twenty bytes.
abbrev pub FitsFile : FileInfo → Type 0
FitsFile f = f.length < u64_mod

abbrev pub Fits : Info → Type 0
Fits (single s) = (s.length < u64_mod) × (s.piece_length < u64_mod) × All IsHash s.pieces
Fits (multi m) = All FitsFile m.files × (m.piece_length < u64_mod) × All IsHash m.pieces

strings_read : (items : List Bytes) → All (λ s. string_from_value (string s) ≡ ok s) items
unfolding string_from_value
strings_read [] = tt
strings_read (s ∷ items) = (refl, strings_read items)

vec_from_value-strings :
    (items : List Bytes) → vec_from_value string_from_value (vec_into_value string items) ≡ ok items
unfolding vec_from_value vec_into_value
vec_from_value-strings items =
    items_from_values-values_from string_from_value string items (strings_read items)

file_from_value-into_value :
    (f : FileInfo) → FitsFile f → file_from_value (file_into_value f) ≡ ok f
unfolding file_from_value file_into_value insert insert_at compare_bytes then_compare lookup
    get_field get_option_field insert_option bytes_eq string_from_value
file_from_value-into_value f h = elim (Option-cases f.md5sum) [
  | inl e ↦ rw e (rw (unsigned_from_value-into_value f.length h, vec_from_value-strings f.path))
  | inr (s, e) ↦
      rw e (rw (unsigned_from_value-into_value f.length h, vec_from_value-strings f.path))
]

files_read :
    (files : List FileInfo)
    → All FitsFile files
    → All (λ f. file_from_value (file_into_value f) ≡ ok f) files
files_read [] h = tt
files_read (f ∷ files) h = (file_from_value-into_value f h.0, files_read files h.1)

vec_from_value-files :
    (files : List FileInfo)
    → All FitsFile files
    → vec_from_value file_from_value (vec_into_value file_into_value files) ≡ ok files
unfolding vec_from_value vec_into_value
vec_from_value-files files h =
    items_from_values-values_from file_from_value file_into_value files (files_read files h)

single_from_value-into_value :
    (s : SingleInfo)
    → Fits (single s)
    → info_from_value (info_into_value (single s)) ≡ ok (single s)
unfolding info_from_value single_from_value info_into_value insert insert_at compare_bytes
    then_compare lookup get_option_value get_field get_option_field insert_option bytes_eq
    string_from_value
single_from_value-into_value s h =
    let len = unsigned_from_value-into_value s.length h.0 in
    let piece_length = unsigned_from_value-into_value s.piece_length h.1 in
    let pieces = hashes_from_value-into_value s.pieces h.2 in
    elim (Option-cases s.md5sum) [
      | inl e ↦ rw e (rw (len, piece_length, pieces))
      | inr (md5sum, e) ↦ rw e (rw (len, piece_length, pieces))
    ]

multi_from_value-into_value :
    (m : MultiInfo) → Fits (multi m) → info_from_value (info_into_value (multi m)) ≡ ok (multi m)
unfolding info_from_value multi_from_value info_into_value insert insert_at compare_bytes
    then_compare lookup get_option_value get_field bytes_eq string_from_value
multi_from_value-into_value m h = rw (
  vec_from_value-files m.files h.0,
  unsigned_from_value-into_value m.piece_length h.1,
  hashes_from_value-into_value m.pieces h.2,
)

-- The information on the files is read back from the value that is made of it, for one file and
-- for several, if every number in it fits a `u64` and every hash is of twenty bytes.
pub info_from_value-into_value :
    (info : Info) → Fits info → info_from_value (info_into_value info) ≡ ok info
info_from_value-into_value (single s) h = single_from_value-into_value s h
info_from_value-into_value (multi m) h = multi_from_value-into_value m h

lists_read :
    (lists : List (List Bytes))
    → All (λ l. vec_from_value string_from_value (vec_into_value string l) ≡ ok l) lists
lists_read [] = tt
lists_read (l ∷ lists) = (vec_from_value-strings l, lists_read lists)

vec_from_value-lists :
    (lists : List (List Bytes))
    → vec_from_value
        (vec_from_value string_from_value)
        (vec_into_value (vec_into_value string) lists)
      ≡ ok lists
unfolding vec_from_value vec_into_value
vec_from_value-lists lists =
    items_from_values-values_from (vec_from_value string_from_value) (vec_into_value string) lists
      (lists_read lists)

string_read : (o : Option Bytes) (a : Bytes) → o ≡ some a → string_from_value (string a) ≡ ok a
unfolding string_from_value
string_read o a e = refl

abbrev with_announce : TorrentMetaInfo → Entries
with_announce t = insert_option string announce_key t.announce empty_map

abbrev with_list : TorrentMetaInfo → Entries
with_list t =
    insert_option (vec_into_value (vec_into_value string)) announce_list_key t.announce_list
      (with_announce t)

abbrev with_comment : TorrentMetaInfo → Entries
with_comment t = insert_option string comment_key t.comment (with_list t)

abbrev with_created_by : TorrentMetaInfo → Entries
with_created_by t = insert_option string created_by_key t.created_by (with_comment t)

abbrev with_encoding : TorrentMetaInfo → Entries
with_encoding t = insert_option string encoding_key t.encoding (with_created_by t)

module _ (t : TorrentMetaInfo) where
  abbrev lists_into : List (List Bytes) → Value
  lists_into = vec_into_value (vec_into_value string)

  abbrev written : Entries
  written = insert info_key (info_into_value t.info) (with_encoding t)

  past_info :
      (key : Bytes) (r : Option Value)
      → bytes_eq info_key key ≡ false
      → lookup key (with_encoding t) ≡ r
      → lookup key written ≡ r
  past_info key r other h =
      lookup-insert_other key info_key (info_into_value t.info) (with_encoding t) other ∙ h

  announce_at : lookup announce_key written ≡ Option.map string t.announce
  unfolding bytes_eq lookup
  announce_at = past_info _ _ refl (
      skipped string _ encoding_key t.encoding (with_created_by t) refl (
        skipped string _ created_by_key t.created_by (with_comment t) refl (
          skipped string _ comment_key t.comment (with_list t) refl (
            skipped lists_into _ announce_list_key t.announce_list (with_announce t) refl
              (found string announce_key t.announce empty_map refl)))))

  list_at : lookup announce_list_key written ≡ Option.map lists_into t.announce_list
  unfolding bytes_eq lookup
  list_at = past_info _ _ refl (
      skipped string _ encoding_key t.encoding (with_created_by t) refl (
        skipped string _ created_by_key t.created_by (with_comment t) refl (
          skipped string _ comment_key t.comment (with_list t) refl (
            found lists_into announce_list_key t.announce_list (with_announce t)
              (skipped string _ announce_key t.announce empty_map refl refl)))))

  comment_at : lookup comment_key written ≡ Option.map string t.comment
  unfolding bytes_eq lookup
  comment_at = past_info _ _ refl (
      skipped string _ encoding_key t.encoding (with_created_by t) refl (
        skipped string _ created_by_key t.created_by (with_comment t) refl (
          found string comment_key t.comment (with_list t) (
            skipped lists_into _ announce_list_key t.announce_list (with_announce t) refl
              (skipped string _ announce_key t.announce empty_map refl refl)))))

  created_by_at : lookup created_by_key written ≡ Option.map string t.created_by
  unfolding bytes_eq lookup
  created_by_at = past_info _ _ refl (
      skipped string _ encoding_key t.encoding (with_created_by t) refl (
        found string created_by_key t.created_by (with_comment t) (
          skipped string _ comment_key t.comment (with_list t) refl (
            skipped lists_into _ announce_list_key t.announce_list (with_announce t) refl
              (skipped string _ announce_key t.announce empty_map refl refl)))))

  encoding_at : lookup encoding_key written ≡ Option.map string t.encoding
  unfolding bytes_eq lookup
  encoding_at = past_info _ _ refl (
      found string encoding_key t.encoding (with_created_by t) (
        skipped string _ created_by_key t.created_by (with_comment t) refl (
          skipped string _ comment_key t.comment (with_list t) refl (
            skipped lists_into _ announce_list_key t.announce_list (with_announce t) refl
              (skipped string _ announce_key t.announce empty_map refl refl)))))

  -- So is the metadata of a torrent.
  pub meta_from_value-into_value : Fits t.info → meta_from_value (meta_into_value t) ≡ ok t
  unfolding meta_from_value meta_into_value
  meta_from_value-into_value h = rw (
    get_field-read info_from_value info_key written (info_into_value t.info) t.info
        (info_from_value-into_value t.info h)
        (lookup-insert_self info_key (info_into_value t.info) (with_encoding t)),
    get_option_field-read string_from_value string announce_key t.announce written
        (string_read t.announce) announce_at,
    get_option_field-read (vec_from_value (vec_from_value string_from_value)) lists_into
        announce_list_key t.announce_list written (λ l _. vec_from_value-lists l) list_at,
    get_option_field-read string_from_value string comment_key t.comment written
        (string_read t.comment) comment_at,
    get_option_field-read string_from_value string created_by_key t.created_by written
        (string_read t.created_by) created_by_at,
    get_option_field-read string_from_value string encoding_key t.encoding written
        (string_read t.encoding) encoding_at,
  )
