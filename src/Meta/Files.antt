-- ===== src/Meta/Files.antt =====
-- `create_file_infos` of bt/src/base/download.rs: the files of a torrent and their temporary names.
use rust_torrent_client.Prelude.{
  ℕ, ◌-◌, ◌≡◌, refl, ap, ◌∙◌, List, [], ◌∷◌, ◌++◌, append_assoc, true, sym, Bytes, All, le→ltb,
  length, length-append, drop, drop-append, arith, Outcome, ◌>>=◌,
}
use rust_torrent_client.Peer.Handshake.{bytes_eq}
use rust_torrent_client.Download.Search.{create_offsets, files_length}
use rust_torrent_client.Download.Store.{temp, is_temp}
use rust_torrent_client.Bencode.Decode.{DecodeError}
use rust_torrent_client.Meta.{FileInfo, Info, single, multi}

-- `join("/")`
unfoldable pub join : List Bytes → Bytes
join [] = []
join (part ∷ []) = part
join (part ∷ next ∷ path) = part ++ (47 ∷ join (next ∷ path))

-- "downloads/"
abbrev downloads : Bytes
downloads = 100 ∷ 111 ∷ 119 ∷ 110 ∷ 108 ∷ 111 ∷ 97 ∷ 100 ∷ 115 ∷ 47 ∷ []

unfoldable pub multi_infos : Bytes → List FileInfo → List (ℕ × Bytes)
multi_infos name [] = []
multi_infos name (f ∷ files) =
    (f.length, downloads ++ ((name ++ (47 ∷ join f.path)) ++ temp)) ∷ multi_infos name files

unfoldable pub create_file_infos : Info → List (ℕ × Bytes)
create_file_infos (single s) = (s.length, downloads ++ (s.name ++ temp)) ∷ []
create_file_infos (multi m) = multi_infos m.name m.files

abbrev pub lengths : List (ℕ × Bytes) → List ℕ
lengths [] = []
lengths ((len, path) ∷ infos) = len ∷ lengths infos

temp_eq : bytes_eq temp temp ≡ true
unfolding bytes_eq
temp_eq = refl

-- The length of the files that the manager and the download task read off the offsets.
abbrev length_of_files : List ℕ → Outcome DecodeError ℕ
length_of_files lens = do offsets ← create_offsets 0 lens; files_length offsets

is_temp-append : (path : Bytes) → is_temp (path ++ temp) ≡ true
unfolding is_temp
is_temp-append path =
    let size = length-append path temp in
    rw (le→ltb (length (path ++ temp)) 5 (omega (arith, size))) (
      ap (λ n. bytes_eq (drop n (path ++ temp)) temp) {x = length (path ++ temp) - 5}
        {y = length path} (omega (arith, size))
      ∙ rw (drop-append path temp) (temp_eq))

abbrev pub IsTempFile : ℕ × Bytes → Type 0
IsTempFile (len, path) = is_temp path ≡ true

multi_temp : (name : Bytes) (files : List FileInfo) → All IsTempFile (multi_infos name files)
unfolding multi_infos
multi_temp name [] = tt
multi_temp name (f ∷ files) = (
  ap is_temp (sym (append_assoc downloads (name ++ (47 ∷ join f.path)) temp))
      ∙ is_temp-append (downloads ++ (name ++ (47 ∷ join f.path))),
  multi_temp name files,
)

-- Every file is created under a temporary name, so that it is renamed when it is complete.
pub create_file_infos-IsTempFile : (info : Info) → All IsTempFile (create_file_infos info)
unfolding create_file_infos
create_file_infos-IsTempFile (single s) = (
  ap is_temp (sym (append_assoc downloads s.name temp)) ∙ is_temp-append (downloads ++ s.name),
  tt,
)
create_file_infos-IsTempFile (multi m) = multi_temp m.name m.files
