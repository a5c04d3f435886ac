-- ===== src/Tests/Decoding.antt =====
-- Passing over values and reading structures, bt/src/bencode/decode.rs, at concrete inputs.
use rust_torrent_client.Prelude.{
  ◌+◌, ◌≤◌, ◌≡◌, refl, [], ◌∷◌, some, none, length, arith, ok, err, Ensures,
}
use rust_torrent_client.Peer.Handshake.{bytes_eq}
use rust_torrent_client.Bencode.Utf8
use rust_torrent_client.Bencode.Utf8.{is_utf8}
use rust_torrent_client.Bencode.Encode.{compare_bytes, then_compare}
use rust_torrent_client.Bencode.Decode.{
  decode, missing_field, read_str, read_byte_string, read_number, read_while_number, malformed,
  expect, peek_byte,
}
use rust_torrent_client.Bencode.Skip.{
  skip_item, skip_arm, skip_items, skip_entries, skip_while, skip,
}
use rust_torrent_client.Bencode.Decimal.{parse_usize, parse_digits}
use rust_torrent_client.Bencode.Struct.{
  read_struct, read_field, read_option, find_field, read_unsigned, read_vec, read_vec_items,
  read_field_combine, combine_fields,
}
use rust_torrent_client.Meta.Decode.{file_decode}
use rust_torrent_client.Bencode.Skip.Agree.{skip_item-decode}

-- l1:ai5ee and one byte more.
skip_item-decode_example :
    Ensures
      (λ (v, rest).
        (skip_item 9 10 (108 ∷ 49 ∷ 58 ∷ 97 ∷ 105 ∷ 53 ∷ 101 ∷ 101 ∷ 7 ∷ []) ≡ ok rest)
        × (length rest + 1 ≤ 9))
      (decode 10 (108 ∷ 49 ∷ 58 ∷ 97 ∷ 105 ∷ 53 ∷ 101 ∷ 101 ∷ 7 ∷ []))
skip_item-decode_example =
    skip_item-decode 9 10 (108 ∷ 49 ∷ 58 ∷ 97 ∷ 105 ∷ 53 ∷ 101 ∷ 101 ∷ 7 ∷ []) (omega arith)
      (omega arith) (omega arith)

-- d6:lengthi5e4:pathl1:aee, and a key that is not known in front.
file_decode_test :
    file_decode (skip_item 40 40) 40 (
      100 ∷ 49 ∷ 58 ∷ 97 ∷ 108 ∷ 105 ∷ 49 ∷ 101 ∷ 101 ∷ 54 ∷ 58 ∷ 108 ∷ 101 ∷ 110 ∷ 103 ∷ 116 ∷ 104
      ∷ 105 ∷ 53 ∷ 101 ∷ 52 ∷ 58 ∷ 112 ∷ 97 ∷ 116 ∷ 104 ∷ 108 ∷ 49 ∷ 58 ∷ 97 ∷ 101 ∷ 101 ∷ [])
    ≡ ok (record { length = 5; md5sum = none; path = (97 ∷ []) ∷ [] }, [])
unfolding file_decode read_struct read_field read_option find_field read_unsigned read_vec
    read_vec_items skip_item skip_arm skip_items skip_entries skip_while skip read_str
    read_byte_string read_number read_while_number malformed parse_usize parse_digits expect
    peek_byte is_utf8 Utf8.run Utf8.next_byte Utf8.first_byte compare_bytes then_compare bytes_eq
file_decode_test = refl

-- Fields of one name are joined; a field that is not there is an error, though it is optional.
combined :
    read_field_combine
      (skip_item 40 40)
      (read_vec read_str 40)
      (97 ∷ [])
      40
      (49 ∷ 58 ∷ 97 ∷ 108 ∷ 49 ∷ 58 ∷ 98 ∷ 101 ∷ 49 ∷ 58 ∷ 97 ∷ 108 ∷ 49 ∷ 58 ∷ 99 ∷ 101 ∷ 101 ∷ [])
    ≡ ok (some ((98 ∷ []) ∷ (99 ∷ []) ∷ []), 101 ∷ [])
unfolding read_field_combine combine_fields read_vec read_vec_items read_str read_byte_string
    read_number read_while_number malformed parse_usize parse_digits expect peek_byte is_utf8
    Utf8.run Utf8.next_byte Utf8.first_byte compare_bytes then_compare bytes_eq
combined = refl

combined_missing :
    read_field_combine (skip_item 40 40) (read_vec read_str 40) (97 ∷ []) 40 (101 ∷ [])
    ≡ err (missing_field (97 ∷ []))
unfolding read_field_combine combine_fields peek_byte
combined_missing = refl
