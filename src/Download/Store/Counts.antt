-- ===== src/Download/Store/Counts.antt =====
-- Counting what the download task of bt/src/base/download.rs has told, and the pieces that it has.
use rust_torrent_client.Prelude.{
  ℕ, ◌+◌, ◌≡◌, refl, ap, ◌∙◌, List, [], ◌∷◌, ◌++◌, Option, none, some, Bool, true, false, Bytes,
  ◌==◌, if◌then◌else◌, get_elem?, get_elem?-lt, get_elem?-set, get_elem?-set_self, set, all,
  all-get, All, arith,
}
use rust_torrent_client.Ipc.{block_completed, piece_completed, download_completed}
use rust_torrent_client.Events.{
  ManagerEvent, continue, broadcast, connection, require_piece_length, file_finish, download,
  require_data, require_incomplete_blocks, require_have_pieces, tracker,
}
use rust_torrent_client.Peer.Protocol.Rules.{bit}
use rust_torrent_client.Download.Pieces.{Piece}
use rust_torrent_client.Download.Store.Renames.{IsFileFinish}
use rust_torrent_client.Download.Store.Outcomes.{announcements}

-- Whether an event tells that the piece `i` is complete, or that the download is.
abbrev pub tells_piece : ℕ → ManagerEvent → ℕ
tells_piece i (broadcast (piece_completed j)) = if i == j then 1 else 0
tells_piece i _ = 0

abbrev pub tells_download : ManagerEvent → ℕ
tells_download (broadcast download_completed) = 1
tells_download _ = 0

abbrev pub count : (ManagerEvent → ℕ) → List ManagerEvent → ℕ
count f [] = 0
count f (e ∷ events) = f e + count f events

abbrev pub told_piece : ℕ → List ManagerEvent → ℕ
told_piece i events = count (tells_piece i) events

abbrev pub told_download : List ManagerEvent → ℕ
told_download events = count tells_download events

abbrev pub flag : Option Piece → ℕ
flag none = 0
flag (some p) = bit p.is_completed

-- One if the piece `i` is completed, else zero.
abbrev pub completed_at : ℕ → List Piece → ℕ
completed_at i pieces = flag (get_elem? pieces i)

pub count-append :
    (f : ManagerEvent → ℕ) (xs ys : List ManagerEvent)
    → count f (xs ++ ys) ≡ count f xs + count f ys
count-append f [] ys = omega arith
count-append f (x ∷ xs) ys = omega (arith, count-append f xs ys)

pub count-IsFileFinish :
    (f : ManagerEvent → ℕ) (events : List ManagerEvent)
    → ((i : ℕ) (path : Bytes) → f (file_finish i path) ≡ 0)
    → All IsFileFinish events
    → count f events ≡ 0
count-IsFileFinish f [] none_told finished = refl
count-IsFileFinish f (file_finish i path ∷ events) none_told finished =
    omega (arith, none_told i path, count-IsFileFinish f events none_told finished.1)
count-IsFileFinish f (continue ∷ events) none_told finished = absurd finished.0
count-IsFileFinish f (broadcast _ ∷ events) none_told finished = absurd finished.0
count-IsFileFinish f (connection _ _ ∷ events) none_told finished = absurd finished.0
count-IsFileFinish f (require_piece_length ∷ events) none_told finished = absurd finished.0
count-IsFileFinish f (download _ ∷ events) none_told finished = absurd finished.0
count-IsFileFinish f (require_data _ ∷ events) none_told finished = absurd finished.0
count-IsFileFinish f (require_incomplete_blocks _ ∷ events) none_told finished = absurd finished.0
count-IsFileFinish f (require_have_pieces ∷ events) none_told finished = absurd finished.0
count-IsFileFinish f (tracker _ ∷ events) none_told finished = absurd finished.0

abbrev pub all_completed : List Piece → Bool
all_completed pieces = all (λ p. p.is_completed) pieces

pub told_announcements :
    (i b j : ℕ) (pieces : List Piece)
    → (told_piece j (announcements i b pieces) ≡ (if j == i then 1 else 0))
      × (told_download (announcements i b pieces) ≡ bit (all_completed pieces))
told_announcements i b j pieces = by_test (all_completed pieces)
  where
    by_test :
        (all_done : Bool)
        → (told_piece j (
              broadcast (block_completed i b)
              ∷ broadcast (piece_completed i)
              ∷ (if all_done then broadcast download_completed ∷ [] else []))
            ≡ (if j == i then 1 else 0))
          × (told_download (
                broadcast (block_completed i b)
                ∷ broadcast (piece_completed i)
                ∷ (if all_done then broadcast download_completed ∷ [] else []))
              ≡ bit all_done)
    by_test true = (omega arith, omega arith)
    by_test false = (omega arith, omega arith)

module _ (pieces : List Piece) (i : ℕ) (p : Piece) (at : get_elem? pieces i ≡ some p) where
  -- A piece that is not completed leaves the download incomplete.
  pub not_all : p.is_completed ≡ false → all_completed pieces ≡ false
  not_all open_piece = ground (arith, open_piece, all-get (λ p. p.is_completed) pieces i p, at)

  pub completed_at-set :
      (q : Piece) (j : ℕ)
      → completed_at j (set pieces i q)
        ≡ (if j == i then bit q.is_completed else completed_at j pieces)
  completed_at-set q j = rw (get_elem?-set pieces i j q (get_elem?-lt pieces i p at)) (ground arith)

  -- The entry of the piece that is set, when the piece was not completed.
  pub completed_at-before : p.is_completed ≡ false → completed_at i pieces ≡ 0
  completed_at-before open_piece = ap flag at ∙ ap bit open_piece

  -- A piece that stays incomplete changes nothing.
  pub stays_open :
      (q : Piece) (j : ℕ)
      → p.is_completed ≡ false
      → q.is_completed ≡ false
      → completed_at j (set pieces i q) ≡ completed_at j pieces
  stays_open q j open_piece open_q = ground (
    arith,
    completed_at-set q j,
    completed_at-before open_piece,
    open_q,
    ap (λ k. completed_at k pieces) {x = j} {y = i},
  )

  pub not_all-set : (q : Piece) → q.is_completed ≡ false → all_completed (set pieces i q) ≡ false
  not_all-set q open_q = ground (
    arith,
    open_q,
    all-get (λ p. p.is_completed) (set pieces i q) i q,
    get_elem?-set_self pieces i q (get_elem?-lt pieces i p at),
  )
