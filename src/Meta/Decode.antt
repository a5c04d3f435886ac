-- ===== src/Meta/Decode.antt =====
-- The instance of `DecodeTo` for `FileInfo` of bt/src/base/meta_info.rs.
use rust_torrent_client.Prelude.{ℕ, Bytes, ok, ◌>>=◌}
use rust_torrent_client.Bencode.Decode.{Read, read_str}
use rust_torrent_client.Bencode.Skip.{Skip}
use rust_torrent_client.Bencode.Struct.{
  read_struct, read_field, read_option, read_unsigned, read_vec,
}
use rust_torrent_client.Meta.Keys.{length_key, md5sum_key, path_key}
use rust_torrent_client.Meta.{FileInfo}

unfoldable pub file_decode : Skip → ℕ → Bytes → Read FileInfo
file_decode sk fuel input =
    read_struct sk fuel
      (λ d. do
        (len, d_1) ← read_field sk read_unsigned length_key fuel d
        (md5sum, d_2) ← read_option sk read_str md5sum_key fuel d_1
        (path, d_3) ← read_field sk (read_vec read_str fuel) path_key fuel d_2
        ok (record { length = len; md5sum = md5sum; path = path }, d_3))
      input
