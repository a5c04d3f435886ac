-- ===== src/Meta/Parse.antt =====
-- `TorrentMetaInfo::parse` of bt/src/base/meta_info.rs on the encoding of metadata.
use rust_torrent_client.Prelude.{
  suc, ◌<◌, ◌≡◌, refl, subst, List, [], ◌∷◌, ◌++◌, Option, none, some, false, true, Bytes, All,
  length, length-append, arith, ok, u64_mod,
}
use rust_torrent_client.Bencode.Utf8
use rust_torrent_client.Bencode.Utf8.{is_utf8}
use rust_torrent_client.Bencode.Encode.{Value, string, Entries, empty_map, encode, insert}
use rust_torrent_client.Bencode.RoundTrip.{IsEncodable, MapEncodable, decode-encode_fuel}
use rust_torrent_client.Bencode.Fields.{concat, hashes_into_value, vec_into_value, insert_option}
use rust_torrent_client.Bencode.Fields.Encodable.{
  IsText, MapEncodable-insert, MapEncodable-insert_option, IsEncodable-unsigned, IsEncodable-vec,
}
use rust_torrent_client.Meta.Keys.{
  length_key, md5sum_key, path_key, files_key, name_key, piece_length_key, pieces_key, info_key,
  announce_key, announce_list_key, comment_key, created_by_key, encoding_key,
}
use rust_torrent_client.Meta.{
  FileInfo, Info, single, multi, TorrentMetaInfo, file_into_value, info_into_value, meta_into_value,
  parse,
}
use rust_torrent_client.Meta.RoundTrip.{Fits, FitsFile, meta_from_value-into_value}

abbrev pub IfSome : {A : Type 0} → (A → Type 0) → Option A → Type 0
IfSome P none = Unit
IfSome P (some a) = P a

-- Hashes whose bytes are not, taken together, the encoding of a string.
abbrev pub AreWritable : List Bytes → Type 0
AreWritable hashes = (is_utf8 (concat hashes) ≡ false) × (length (concat hashes) < u64_mod)

abbrev pub FileTexts : FileInfo → Type 0
FileTexts f = IfSome IsText f.md5sum × All IsText f.path

abbrev pub InfoTexts : Info → Type 0
InfoTexts (single s) = IfSome IsText s.md5sum × IsText s.name × AreWritable s.pieces
InfoTexts (multi m) = All FileTexts m.files × IsText m.name × AreWritable m.pieces

pub record IsWritable (t : TorrentMetaInfo) : Type 0 where
  pub fits : Fits t.info
  pub info : InfoTexts t.info
  pub announce : IfSome IsText t.announce
  pub announce_list : IfSome (All (All IsText)) t.announce_list
  pub comment : IfSome IsText t.comment
  pub created_by : IfSome IsText t.created_by
  pub encoding : IfSome IsText t.encoding

IsEncodable-some :
    {A : Type 0} (P : A → Type 0) (into : A → Value) (o : Option A)
    → ((a : A) → P a → IsEncodable (into a))
    → IfSome P o
    → (a : A) → o ≡ some a
    → IsEncodable (into a)
IsEncodable-some P into none w h a e = cc
IsEncodable-some P into (some b) w h a e = subst (λ c. IsEncodable (into c)) (cc e) (w b h)

IsEncodable-string : (s : Bytes) → IsText s → IsEncodable (string s)
unfolding IsEncodable
IsEncodable-string s h = h

All-weaken :
    {A : Type 0} {P Q : A → Type 0} (xs : List A) → ((a : A) → P a → Q a) → All P xs → All Q xs
All-weaken [] w h = tt
All-weaken (x ∷ xs) w h = (w x h.0, All-weaken xs w h.1)

IsEncodable-strings :
    (items : List Bytes) → All IsText items → IsEncodable (vec_into_value string items)
IsEncodable-strings items h = IsEncodable-vec string items (All-weaken items IsEncodable-string h)

IsEncodable-lists :
    (lists : List (List Bytes))
    → All (All IsText) lists
    → IsEncodable (vec_into_value (vec_into_value string) lists)
IsEncodable-lists lists h =
    IsEncodable-vec (vec_into_value string) lists (All-weaken lists IsEncodable-strings h)

IsEncodable-hashes :
    (hashes : List Bytes) → AreWritable hashes → IsEncodable (hashes_into_value hashes)
unfolding IsEncodable hashes_into_value
IsEncodable-hashes hashes h = h

-- `insert` of a key that is a text.
pub written :
    (k : Bytes) (v : Value) (map : Entries)
    → is_utf8 k ≡ true
    → length k < u64_mod
    → IsEncodable v
    → MapEncodable map
    → MapEncodable (insert k v map)
written k v map valid fits w m = MapEncodable-insert k v map (valid, fits) w m

pub written_text :
    (k : Bytes) (o : Option Bytes) (map : Entries)
    → is_utf8 k ≡ true
    → length k < u64_mod
    → IfSome IsText o
    → MapEncodable map
    → MapEncodable (insert_option string k o map)
written_text k o map valid fits w m =
    MapEncodable-insert_option string k o map (valid, fits)
      (IsEncodable-some IsText string o IsEncodable-string w) m

pub empty : MapEncodable empty_map
unfolding MapEncodable IsEncodable
empty = tt

IsEncodable-file : (f : FileInfo) → FitsFile f → FileTexts f → IsEncodable (file_into_value f)
unfolding IsEncodable MapEncodable file_into_value is_utf8 Utf8.run Utf8.next_byte Utf8.first_byte
IsEncodable-file f fits h =
    written path_key _ _ refl (omega arith) (IsEncodable-strings f.path h.1) (
      written_text md5sum_key f.md5sum _ refl (omega arith) h.0
        (written length_key _ _ refl (omega arith) (IsEncodable-unsigned f.length fits) empty))

files_encodable :
    (files : List FileInfo)
    → All FitsFile files
    → All FileTexts files
    → All (λ f. IsEncodable (file_into_value f)) files
files_encodable [] fits h = tt
files_encodable (f ∷ files) fits h =
    (IsEncodable-file f fits.0 h.0, files_encodable files fits.1 h.1)

IsEncodable-info : (info : Info) → Fits info → InfoTexts info → IsEncodable (info_into_value info)
unfolding IsEncodable MapEncodable info_into_value is_utf8 Utf8.run Utf8.next_byte Utf8.first_byte
IsEncodable-info (multi m) fits h =
    written piece_length_key _ _ refl (omega arith) (IsEncodable-unsigned m.piece_length fits.1) (
      written name_key _ _ refl (omega arith) (IsEncodable-string m.name h.1) (
        written pieces_key _ _ refl (omega arith) (IsEncodable-hashes m.pieces h.2) (
          written files_key _ _ refl (omega arith)
            (IsEncodable-vec file_into_value m.files (files_encodable m.files fits.0 h.0)) empty)))
IsEncodable-info (single s) fits h =
    written piece_length_key _ _ refl (omega arith) (IsEncodable-unsigned s.piece_length fits.1) (
      written name_key _ _ refl (omega arith) (IsEncodable-string s.name h.1) (
        written pieces_key _ _ refl (omega arith) (IsEncodable-hashes s.pieces h.2) (
          written length_key _ _ refl (omega arith) (IsEncodable-unsigned s.length fits.0)
            (written_text md5sum_key s.md5sum _ refl (omega arith) h.0 empty))))

IsEncodable-meta : (t : TorrentMetaInfo) → IsWritable t → IsEncodable (meta_into_value t)
unfolding IsEncodable MapEncodable meta_into_value is_utf8 Utf8.run Utf8.next_byte Utf8.first_byte
IsEncodable-meta t w =
    written info_key _ _ refl (omega arith) (IsEncodable-info t.info w.fits w.info) (
      written_text encoding_key t.encoding _ refl (omega arith) w.encoding (
        written_text created_by_key t.created_by _ refl (omega arith) w.created_by (
          written_text comment_key t.comment _ refl (omega arith) w.comment (
            MapEncodable-insert_option (vec_into_value (vec_into_value string)) announce_list_key
              t.announce_list _ (refl, omega arith)
              (IsEncodable-some (All (All IsText)) (vec_into_value (vec_into_value string))
                t.announce_list IsEncodable-lists w.announce_list)
              (written_text announce_key t.announce _ refl (omega arith) w.announce empty)))))

-- The encoding of the metadata of a torrent is parsed to the same metadata, whatever follows it,
-- if it is writable: every number fits a `u64`, every hash is of twenty bytes, every text is UTF-8,
-- the hashes taken together are not, and the texts and the hashes are shorter than 2 ^ 64 bytes.
pub parse-encode :
    (t : TorrentMetaInfo) (rest : Bytes)
    → IsWritable t
    → parse (encode (meta_into_value t) ++ rest) ≡ ok t
unfolding parse
parse-encode t rest w = rw (
  decode-encode_fuel (meta_into_value t) (suc (length (encode (meta_into_value t) ++ rest))) rest
      (IsEncodable-meta t w) (omega (arith, length-append (encode (meta_into_value t)) rest)),
  meta_from_value-into_value t w.fits,
)
