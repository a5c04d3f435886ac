-- ===== src/Tests/Metadata.antt =====
-- The metadata of a torrent, bt/src/base/meta_info.rs, at concrete inputs.
use rust_torrent_client.Prelude.{
  ◌≡◌, refl, ap, sym, ◌∙◌, [], ◌∷◌, ◌++◌, ◌>>=◌, append-nil, some, none, Bytes, replicate, arith,
  ok,
}
use rust_torrent_client.Peer.Handshake.{bytes_eq}
use rust_torrent_client.Bencode.Decimal.{pos}
use rust_torrent_client.Bencode.Utf8
use rust_torrent_client.Bencode.Utf8.{is_utf8}
use rust_torrent_client.Bencode.Encode.{
  Value, integer, bytes, string, dict, empty_map, entry, Entries, encode, insert, insert_at,
  compare_bytes, then_compare,
}
use rust_torrent_client.Bencode.RoundTrip.{IsEncodable}
use rust_torrent_client.Bencode.Fields.{
  lookup, get_field, concat, insert_option, string_from_value, unsigned_into_value,
  hashes_into_value, unsigned_from_value, get_option_value, get_option_field,
}
use rust_torrent_client.Bencode.Fields.Known.{only_keys}
use rust_torrent_client.Bencode.Hash.{hashes_from_value}
use rust_torrent_client.Meta.Keys.{length_key, name_key, piece_length_key, pieces_key, info_key}
use rust_torrent_client.Meta.{
  Info, single, multi, TorrentMetaInfo, info_into_value, meta_into_value, parse, info_from_value,
  single_from_value, info_hash,
}
use rust_torrent_client.Meta.Parse.{IsWritable, parse-encode}
use rust_torrent_client.Meta.Same.{KnownInfo}
use rust_torrent_client.Meta.InfoHash.{info_hash-KnownInfo}

abbrev pub hash : Bytes
hash = replicate 20 255

-- A file of five bytes in pieces of eight.
abbrev pub sample : TorrentMetaInfo
sample = record {
  info =
      single (record {
        length = 5;
        md5sum = none;
        name = 97 ∷ [];
        piece_length = 8;
        pieces = hash ∷ [];
      });
  announce = some (98 ∷ []);
  announce_list = some (((99 ∷ []) ∷ []) ∷ []);
  comment = none;
  created_by = none;
  encoding = some (100 ∷ []);
}

sample-IsWritable : IsWritable sample
unfolding is_utf8 Utf8.run Utf8.next_byte Utf8.first_byte concat
sample-IsWritable = record {
  fits = (omega arith, omega arith, (refl, tt));
  info = (tt, (refl, omega arith), (refl, omega arith));
  announce = (refl, omega arith);
  announce_list = (((refl, omega arith), tt), tt);
  comment = tt;
  created_by = tt;
  encoding = (refl, omega arith);
}

parse-encode_example : parse (encode (meta_into_value sample) ++ 1 ∷ []) ≡ ok sample
parse-encode_example = parse-encode sample (1 ∷ []) sample-IsWritable

-- The same information as a torrent of its own.
abbrev known : Value
known = dict (
    entry length_key (integer (pos 5)) (
      entry name_key (string (97 ∷ []))
        (entry piece_length_key (integer (pos 8)) (entry pieces_key (bytes hash) empty_map))))

abbrev torrent : Entries
torrent = entry info_key known empty_map

abbrev bare : TorrentMetaInfo
bare = record sample { announce = none; announce_list = none; encoding = none }

bare-IsWritable : IsWritable bare
bare-IsWritable = record {
  fits = sample-IsWritable.fits;
  info = sample-IsWritable.info;
  announce = tt;
  announce_list = tt;
  comment = tt;
  created_by = tt;
  encoding = tt;
}

torrent-IsEncodable : IsEncodable (dict torrent)
unfolding IsEncodable is_utf8 Utf8.run Utf8.next_byte Utf8.first_byte compare_bytes then_compare
torrent-IsEncodable = (
  refl,
  omega arith,
  tt,
  (
    refl,
    omega arith,
    (refl, (refl, (refl, tt))),
    omega arith,
    (
      refl,
      omega arith,
      (refl, (refl, tt)),
      (refl, omega arith),
      (
        refl,
        omega arith,
        (refl, tt),
        omega arith,
        (refl, omega arith, tt, (refl, omega arith), tt),
      ),
    ),
  ),
  tt,
)

torrent_parsed : parse (encode (dict torrent)) ≡ ok bare
unfolding meta_into_value info_into_value insert insert_at compare_bytes then_compare insert_option
    concat unsigned_into_value hashes_into_value
torrent_parsed =
    ap parse (sym (append-nil (encode (dict torrent)))) ∙ parse-encode bare [] bare-IsWritable

known_keys : KnownInfo known
unfolding lookup only_keys bytes_eq
known_keys = (refl, refl)

info_hash-KnownInfo_example : info_hash (λ input. input) bare ≡ encode known
unfolding lookup bytes_eq
info_hash-KnownInfo_example =
    info_hash-KnownInfo (λ input. input) torrent known bare torrent-IsEncodable refl known_keys
      torrent_parsed

-- A key that the client does not know, "private", changes the bytes but not what is read of them.
private_ignored :
    info_from_value (
      dict (
        entry length_key (integer (pos 5)) (
          entry name_key (string (97 ∷ [])) (
            entry piece_length_key (integer (pos 8)) (
              entry pieces_key (bytes hash) (
                entry
                  (112 ∷ 114 ∷ 105 ∷ 118 ∷ 97 ∷ 116 ∷ 101 ∷ [])
                  (integer (pos 1))
                  empty_map))))))
    ≡ info_from_value known
unfolding info_from_value single_from_value get_option_value get_field get_option_field lookup
    bytes_eq string_from_value unsigned_from_value hashes_from_value
private_ignored = refl

abbrev two_files : Info
two_files = multi (record {
  files =
      record { length = 5; md5sum = none; path = (97 ∷ []) ∷ [] }
      ∷ record { length = 7; md5sum = none; path = (98 ∷ []) ∷ (99 ∷ []) ∷ [] }
      ∷ [];
  name = 100 ∷ [];
  piece_length = 8;
  pieces = hash ∷ hash ∷ [];
})
