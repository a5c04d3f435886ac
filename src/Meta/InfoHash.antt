-- ===== src/Meta/InfoHash.antt =====
-- `TorrentMetaInfo::info_hash` of bt/src/base/meta_info.rs writes the information anew: it is the hash
-- of the bytes in the torrent if these hold nothing else.
use rust_torrent_client.Prelude.{
  suc, ◌≡◌, refl, sym, ap, ◌∙◌, subst, [], some, Bytes, ok, err, panic, out_of_fuel, ◌++◌, ◌>>=◌,
  append-nil, length-append, Outcome, Ensures-ok, length, arith,
}
use rust_torrent_client.Bencode.Encode.{Value, dict, Entries, encode}
use rust_torrent_client.Bencode.Decode.{DecodeError, decode}
use rust_torrent_client.Bencode.RoundTrip.{IsEncodable, MapEncodable, decode-encode_fuel}
use rust_torrent_client.Bencode.Fields.{
  lookup, get_field, get_option_field, string_from_value, vec_from_value,
}
use rust_torrent_client.Bencode.Fields.Inverse.{get_field-Inverts}
use rust_torrent_client.Meta.Keys.{
  info_key, announce_key, announce_list_key, comment_key, created_by_key, encoding_key,
}
use rust_torrent_client.Meta.{
  TorrentMetaInfo, info_from_value, info_into_value, meta_from_value, info_hash, unwrap, parse,
}
use rust_torrent_client.Meta.Same.{KnownInfo, field_encodable}
use rust_torrent_client.Meta.Inverse.{info_from_value-Inverts}

-- If the run returns a value, that satisfies `P`.
data IfOk {A : Type 0} (P : A → Type 0) : Outcome DecodeError A → Type 0 where
  is_ok : {a : A} → P a → IfOk P (ok a)
  is_err : {e : DecodeError} → IfOk P (err e)
  is_panic : IfOk P panic
  is_out : IfOk P out_of_fuel

module _ {A : Type 0} {P : A → Type 0} where
  IfOk-ok : {r : Outcome DecodeError A} {a : A} → IfOk P r → r ≡ ok a → P a
  IfOk-ok (is_ok h) e = subst P (cc) h
  IfOk-ok is_err e = cc
  IfOk-ok is_panic e = cc
  IfOk-ok is_out e = cc

  IfOk-bind :
      {B : Type 0} (r : Outcome DecodeError B) {f : B → Outcome DecodeError A}
      → ((b : B) → r ≡ ok b → IfOk P (f b))
      → IfOk P (r >>= f)
  IfOk-bind (ok b) h = h b refl
  IfOk-bind (err e) h = is_err
  IfOk-bind panic h = is_panic
  IfOk-bind out_of_fuel h = is_out

-- The information in metadata that was read was read from the field `info`.
meta_from_value-info :
    (v : Value) → IfOk (λ t. get_field info_from_value info_key v ≡ ok t.info) (meta_from_value v)
unfolding meta_from_value
meta_from_value-info v =
    let text = λ (key : Bytes). get_option_field string_from_value key v in
    let lists =
      get_option_field (vec_from_value (vec_from_value string_from_value)) announce_list_key v in
    IfOk-bind (get_field info_from_value info_key v) λ info e. IfOk-bind (text announce_key) λ _ _.
      IfOk-bind lists λ _ _.
        IfOk-bind (text comment_key)
          λ _ _. IfOk-bind (text created_by_key) λ _ _. IfOk-bind (text encoding_key) λ _ _. is_ok e

unwrap-ok : {A : Type 0} (r : Outcome DecodeError A) (a : A) → unwrap r ≡ ok a → r ≡ ok a
unwrap-ok (ok b) a e = e
unwrap-ok (err x) a e = cc
unwrap-ok panic a e = cc
unwrap-ok out_of_fuel a e = cc

parse-value :
    (v : Value) (t : TorrentMetaInfo)
    → IsEncodable v
    → parse (encode v) ≡ ok t
    → meta_from_value v ≡ ok t
unfolding parse
parse-value v t w e =
    let read =
      decode-encode_fuel v (suc (length (encode v ++ []))) [] w
        (omega (arith, length-append (encode v) [])) in
    unwrap-ok (meta_from_value v) t (
      ap (λ r. unwrap (r >>= λ (v, rest). meta_from_value v))
        (sym read ∙ ap (λ input. decode (suc (length input)) input) (append-nil (encode v)))
      ∙ e)

map_of : (map : Entries) → IsEncodable (dict map) → MapEncodable map
unfolding IsEncodable MapEncodable
map_of map w = w

-- The info hash of a torrent that was parsed is the hash of the bytes that the torrent has for the
-- information, for every hash function, if the torrent is the encoding of a dictionary and the value
-- of its key "info" is known: it has no keys but those that the client reads, also for each of its
-- files, and its hashes are as many times twenty bytes.
pub info_hash-KnownInfo :
    (calculate_sha1 : Bytes → Bytes) (map : Entries) (v : Value) (t : TorrentMetaInfo)
    → IsEncodable (dict map)
    → lookup info_key map ≡ some v
    → KnownInfo v
    → parse (encode (dict map)) ≡ ok t
    → info_hash calculate_sha1 t ≡ calculate_sha1 (encode v)
unfolding info_hash
info_hash-KnownInfo calculate_sha1 map v t w at known e =
    ap (λ x. calculate_sha1 (encode x)) (same (map_of map w))
  where
    same : MapEncodable map → info_into_value t.info ≡ v
    same m =
        let read = get_field-Inverts info_from_value info_into_value info_key map λ u is.
          info_from_value-Inverts u (field_encodable map m info_key u is)
            (subst KnownInfo (cc (at, is)) known) in
        let held =
          Ensures-ok read
            (IfOk-ok (meta_from_value-info (dict map)) (parse-value (dict map) t w e)) in
        cc (at, held)
