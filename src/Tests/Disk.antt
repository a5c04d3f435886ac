-- ===== src/Tests/Disk.antt =====
-- A file system whose disk is a function from paths and positions to bytes.
use rust_torrent_client.Prelude.{
  ℕ, zero, suc, ◌+◌, ◌-◌, ◌<◌, ◌≡◌, refl, sym, ap, ◌∙◌, List, [], ◌∷◌, some, Bytes, if◌then◌else◌,
  length, get_or, arith,
}
use rust_torrent_client.Peer.Handshake.{bytes_eq}
use rust_torrent_client.Download.Search.{file_offsets, offsets_from}
use rust_torrent_client.Download.Search.Offsets.{Ordered, file_offsets-Ordered}
use rust_torrent_client.Download.Files.{FileSystem}
use rust_torrent_client.Download.Files.Contents.{in_range, Laws, Separate}

abbrev pub Disk : Type 0
Disk = Bytes → ℕ → ℕ

abbrev pub empty : Disk
empty path q = 0

abbrev pub overwrite : Disk → Bytes → ℕ → Bytes → Disk
overwrite disk path ptr bytes other q =
    if bytes_eq path other
    then (if in_range q ptr (length bytes) then get_or bytes (q - ptr) 0 else disk other q)
    else disk other q

abbrev pub bytes_at : Disk → Bytes → ℕ → ℕ → Bytes
bytes_at disk path ptr zero = []
bytes_at disk path ptr (suc n) = disk path ptr ∷ bytes_at disk path (ptr + 1) n

abbrev pub fs : FileSystem
fs = record {
  Disk = Disk;
  File = Bytes;
  write_all = λ disk path ptr bytes. some (overwrite disk path ptr bytes);
  read = λ disk path ptr n. some (bytes_at disk path ptr n);
  rename = λ disk old new. some (λ path q. if bytes_eq path new then disk old q else disk path q);
  open_file = λ disk path. some (disk, path);
}

pub length-bytes_at :
    (disk : Disk) (path : Bytes) (ptr n : ℕ) → length (bytes_at disk path ptr n) ≡ n
length-bytes_at disk path ptr zero = refl
length-bytes_at disk path ptr (suc n) = ap suc (length-bytes_at disk path (ptr + 1) n)

pub get_or-bytes_at :
    (disk : Disk) (path : Bytes) (ptr n k : ℕ)
    → k < n
    → get_or (bytes_at disk path ptr n) k 0 ≡ disk path (ptr + k)
get_or-bytes_at disk path ptr zero k h = absurd (omega arith)
get_or-bytes_at disk path ptr (suc n) zero h = ap (disk path) {x = ptr} {y = ptr + 0} (omega arith)
get_or-bytes_at disk path ptr (suc n) (suc k) h =
    get_or-bytes_at disk path (ptr + 1) n k (omega arith)
    ∙ ap (disk path) {x = ptr + 1 + k} {y = ptr + suc k} (omega arith)

pub same_some : {A : Type 0} {a b : A} → some a ≡ some b → a ≡ b
same_some e = cc e

abbrev pub laws : Laws fs
laws = record {
  contents = λ disk. disk;
  same_file = bytes_eq;
  written = λ disk disk' f g ptr q bytes e. ap (λ d. d g q) (same_some (sym e));
  got = λ disk f ptr n bytes e.
      let is = same_some e in
      (
        omega (arith, ap length is, length-bytes_at disk f ptr n),
        λ k h.
            ap (λ bs. get_or bs k 0) (sym is)
            ∙ get_or-bytes_at disk f ptr n k
                (omega (arith, ap length is, length-bytes_at disk f ptr n, h)),
      );
}

-- Three files, the second one empty.
abbrev pub lens : List ℕ
lens = 10 ∷ 0 ∷ 5 ∷ []

abbrev pub offsets : List ℕ
offsets = file_offsets lens

pub ordered : Ordered offsets
ordered = (file_offsets-Ordered lens).0

abbrev pub files : List Bytes
files = (1 ∷ []) ∷ (2 ∷ []) ∷ (3 ∷ []) ∷ []

pub open_files : length files + 1 ≡ length offsets
unfolding offsets_from
open_files = refl

pub separate : Separate fs laws files
unfolding bytes_eq
separate zero zero f g e h = ground (arith, e, h)
separate zero (suc zero) f g e h = ground (arith, e, h)
separate zero (suc (suc zero)) f g e h = ground (arith, e, h)
separate (suc zero) zero f g e h = ground (arith, e, h)
separate (suc zero) (suc zero) f g e h = ground (arith, e, h)
separate (suc zero) (suc (suc zero)) f g e h = ground (arith, e, h)
separate (suc (suc zero)) zero f g e h = ground (arith, e, h)
separate (suc (suc zero)) (suc zero) f g e h = ground (arith, e, h)
separate (suc (suc zero)) (suc (suc zero)) f g e h = ground (arith, e, h)
separate (suc (suc (suc i))) j f g e h = cc e
separate zero (suc (suc (suc j))) f g e h = cc h
separate (suc zero) (suc (suc (suc j))) f g e h = cc h
separate (suc (suc zero)) (suc (suc (suc j))) f g e h = cc h
