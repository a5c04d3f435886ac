-- ===== src/Tests/Encoding.antt =====
-- The encoding of bt/src/bencode at concrete inputs.
use rust_torrent_client.Prelude.{
  ℕ, ◌≡◌, ◌+◌, ◌*◌, ◌≤◌, refl, [], ◌∷◌, ◌++◌, true, some, Bytes, length, get_elem?, take, drop,
  replicate, arith, ok, err, Ensures, Returns,
}
use rust_torrent_client.Bencode.Decimal.{negsuc, digits}
use rust_torrent_client.Bencode.Utf8
use rust_torrent_client.Bencode.Utf8.{is_utf8}
use rust_torrent_client.Bencode.Encode.{
  Value, integer, bytes, string, list, dict, empty_list, value, empty_map, entry, encode,
  compare_bytes, then_compare, write_integer, write_bytes,
}
use rust_torrent_client.Bencode.Decode.{extraneous_data, decode}
use rust_torrent_client.Bencode.Hash.{sha1_list, hashes_from_value}
use rust_torrent_client.Bencode.Hash.Lists.{sha1_list_lem, hashes_from_value-decode}
use rust_torrent_client.Bencode.RoundTrip.{IsEncodable, decode-encode}
use rust_torrent_client.Bencode.Ends.{decode-Takes}

-- {"a": [-3, "b"], "c": <ff>}
abbrev sample : Value
sample = dict (
    entry (97 ∷ []) (list (value (integer (negsuc 2)) (value (string (98 ∷ [])) empty_list)))
      (entry (99 ∷ []) (bytes (255 ∷ [])) empty_map))

-- d1:ali-3e1:be1:c1:<ff>e
encode_test :
    encode sample
    ≡ 100 ∷ 49 ∷ 58 ∷ 97 ∷ 108 ∷ 105 ∷ 45 ∷ 51 ∷ 101 ∷ 49 ∷ 58 ∷ 98 ∷ 101 ∷ 49 ∷ 58 ∷ 99 ∷ 49 ∷ 58
      ∷ 255 ∷ 101 ∷ []
unfolding encode write_integer write_bytes digits
encode_test = refl

sample-IsEncodable : IsEncodable sample
unfolding IsEncodable is_utf8 Utf8.run Utf8.next_byte Utf8.first_byte compare_bytes then_compare
sample-IsEncodable = (
  refl,
  omega arith,
  (refl, tt),
  (omega arith, ((refl, omega arith), tt)),
  (refl, omega arith, tt, (refl, omega arith), tt),
)

decode-encode_example :
    decode (length (encode sample ++ 5 ∷ [])) (encode sample ++ 5 ∷ []) ≡ ok (sample, 5 ∷ [])
decode-encode_example = decode-encode sample (5 ∷ []) sample-IsEncodable

decode-Takes_example : Ensures (λ (_, rest). length rest + 1 ≤ 3) (decode 4 (105 ∷ 55 ∷ 101 ∷ []))
decode-Takes_example = decode-Takes 4 (105 ∷ 55 ∷ 101 ∷ []) (omega arith)

sha1_list_lem_example :
    Returns
      (λ hashes.
        (length hashes ≡ 2)
        × ((k : ℕ) (hash : Bytes)
            → get_elem? hashes k ≡ some hash
            → hash ≡ take 20 (drop (20 * k) (replicate 45 1))))
      (sha1_list (replicate 45 1))
sha1_list_lem_example = sha1_list_lem (replicate 45 1)

-- Twenty letters as a hash.
letters-is_utf8 : is_utf8 (replicate 20 97) ≡ true
unfolding is_utf8 Utf8.run Utf8.next_byte Utf8.first_byte
letters-is_utf8 = refl

hashes_from_value-decode_example :
    (v : Value) × (decode 30 (encode (bytes (replicate 20 97)) ++ []) ≡ ok (v, []))
    × (hashes_from_value v ≡ err extraneous_data)
hashes_from_value-decode_example =
    hashes_from_value-decode 29 (replicate 20 97) [] (omega arith) letters-is_utf8
