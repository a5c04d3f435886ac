-- ===== src/Meta/Keys.antt =====
-- The keys of the metadata of a torrent, the texts in bt/src/base/meta_info.rs.
use rust_torrent_client.Prelude.{[], ◌∷◌, Bytes}

-- "length"
abbrev pub length_key : Bytes
length_key = 108 ∷ 101 ∷ 110 ∷ 103 ∷ 116 ∷ 104 ∷ []

-- "md5sum"
abbrev pub md5sum_key : Bytes
md5sum_key = 109 ∷ 100 ∷ 53 ∷ 115 ∷ 117 ∷ 109 ∷ []

-- "path"
abbrev pub path_key : Bytes
path_key = 112 ∷ 97 ∷ 116 ∷ 104 ∷ []

-- "files"
abbrev pub files_key : Bytes
files_key = 102 ∷ 105 ∷ 108 ∷ 101 ∷ 115 ∷ []

-- "name"
abbrev pub name_key : Bytes
name_key = 110 ∷ 97 ∷ 109 ∷ 101 ∷ []

-- "piece length"
abbrev pub piece_length_key : Bytes
piece_length_key = 112 ∷ 105 ∷ 101 ∷ 99 ∷ 101 ∷ 32 ∷ 108 ∷ 101 ∷ 110 ∷ 103 ∷ 116 ∷ 104 ∷ []

-- "pieces"
abbrev pub pieces_key : Bytes
pieces_key = 112 ∷ 105 ∷ 101 ∷ 99 ∷ 101 ∷ 115 ∷ []

-- "info"
abbrev pub info_key : Bytes
info_key = 105 ∷ 110 ∷ 102 ∷ 111 ∷ []

-- "announce"
abbrev pub announce_key : Bytes
announce_key = 97 ∷ 110 ∷ 110 ∷ 111 ∷ 117 ∷ 110 ∷ 99 ∷ 101 ∷ []

-- "announce-list"
abbrev pub announce_list_key : Bytes
announce_list_key = 97 ∷ 110 ∷ 110 ∷ 111 ∷ 117 ∷ 110 ∷ 99 ∷ 101 ∷ 45 ∷ 108 ∷ 105 ∷ 115 ∷ 116 ∷ []

-- "comment"
abbrev pub comment_key : Bytes
comment_key = 99 ∷ 111 ∷ 109 ∷ 109 ∷ 101 ∷ 110 ∷ 116 ∷ []

-- "created by"
abbrev pub created_by_key : Bytes
created_by_key = 99 ∷ 114 ∷ 101 ∷ 97 ∷ 116 ∷ 101 ∷ 100 ∷ 32 ∷ 98 ∷ 121 ∷ []

-- "encoding"
abbrev pub encoding_key : Bytes
encoding_key = 101 ∷ 110 ∷ 99 ∷ 111 ∷ 100 ∷ 105 ∷ 110 ∷ 103 ∷ []
