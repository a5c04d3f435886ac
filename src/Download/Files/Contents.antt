-- ===== src/Download/Files/Contents.antt =====
-- What the files of the program hold, as the code relies on it.
use rust_torrent_client.Prelude.{
  ℕ, ◌+◌, ◌-◌, ◌≤◌, ◌<◌, ◌≡◌, refl, List, Option, some, none, Bool, false, Bytes, leb, ltb, ◌==◌,
  if◌then◌else◌, length, get_elem?, get_or, arith, Runs, ran, erred,
}
use rust_torrent_client.Download.Search.Offsets.{at}
use rust_torrent_client.Download.Files.{FileSystem, or_io}

-- Whether `x` is one of the `n` numbers from `lo` on.
abbrev pub in_range : ℕ → ℕ → ℕ → Bool
in_range x lo n = if leb lo x then ltb x (lo + n) else false

-- The documented behaviour of files: `write_all` that succeeds has written all its bytes there and
-- nothing else, `read` returns bytes that stand there, and no more than the buffer takes.
pub record Laws (fs : FileSystem) : Type 0 where
  pub contents : fs.Disk → fs.File → ℕ → ℕ
  pub same_file : fs.File → fs.File → Bool
  pub written :
      (disk disk' : fs.Disk) (f g : fs.File) (ptr q : ℕ) (bytes : Bytes)
      → fs.write_all disk f ptr bytes ≡ some disk'
      → contents disk' g q ≡ (
          if same_file f g
          then (if in_range q ptr (length bytes)
              then get_or bytes (q - ptr) 0
              else contents disk g q)
          else contents disk g q)
  pub got :
      (disk : fs.Disk) (f : fs.File) (ptr n : ℕ) (bytes : Bytes)
      → fs.read disk f ptr n ≡ some bytes
      → (length bytes ≤ n)
        × ((k : ℕ) → k < length bytes → get_or bytes k 0 ≡ contents disk f (ptr + k))

module _ (fs : FileSystem) (laws : Laws fs) where
  -- The open files are different files.
  abbrev pub Separate : List fs.File → Type 0
  Separate files =
      (i j : ℕ) (f g : fs.File)
      → get_elem? files i ≡ some f
      → get_elem? files j ≡ some g
      → laws.same_file f g ≡ i == j

  -- A read inside of the file `j` of the torrent, and of bytes among the `n` from `pos` on, gave fewer
  -- bytes than it was asked for, so that the one at `q` did not come. `read` does not promise that
  -- all come.
  pub record CutShort (disk : fs.Disk) (offsets : List ℕ) (pos n j : ℕ) (f : fs.File) (q : ℕ)
      : Type 0 where
    pub ptr : ℕ
    pub asked : ℕ
    pub got : Bytes
    pub is_read : fs.read disk f ptr asked ≡ some got
    pub inside_file : at offsets j + ptr + asked ≤ at offsets (j + 1)
    pub inside_range : (pos ≤ at offsets j + ptr) × (at offsets j + ptr + asked ≤ pos + n)
    pub wanted : (ptr ≤ q) × (q < ptr + asked)
    pub missing : ptr + length got ≤ q

  pub CutShort-widen :
      (disk : fs.Disk) (offsets : List ℕ) (pos n pos' n' j : ℕ) (f : fs.File) (q : ℕ)
      → pos' ≤ pos
      → pos + n ≤ pos' + n'
      → CutShort disk offsets pos n j f q
      → CutShort disk offsets pos' n' j f q
  CutShort-widen disk offsets pos n pos' n' j f q lo hi c = record {
    ptr = c.ptr;
    asked = c.asked;
    got = c.got;
    is_read = c.is_read;
    inside_file = c.inside_file;
    inside_range = (omega (arith, lo, c.inside_range.0), omega (arith, hi, c.inside_range.1));
    wanted = c.wanted;
    missing = c.missing;
  }

pub Runs-or_io {ℓ κ} :
    {A : Type ℓ} {P : A → Type κ} (o : Option A) → ((a : A) → o ≡ some a → P a) → Runs P (or_io o)
Runs-or_io none h = erred
Runs-or_io (some a) h = ran (h a refl)
