-- ===== src/Download/Store/Announced.antt =====
-- What the download task has told the other tasks, against the pieces that it has.
use rust_torrent_client.Prelude.{
  ℕ, ◌+◌, ◌/◌, ◌≤◌, ◌≡◌, refl, sym, ap, ◌∙◌, List, [], ◌∷◌, ◌++◌, some, Bool, false, Bytes, ◌==◌,
  if◌then◌else◌, get_elem?, arith, Ensures, holds, failed, Ensures-if, Ensures-bind, Ensures-weaken,
  Ensures-checked, u64_mod,
}
use rust_torrent_client.Ipc.{piece}
use rust_torrent_client.Events.{
  ManagerEvent, file_finish, download, require_data, require_incomplete_blocks, require_have_pieces,
}
use rust_torrent_client.Peer.Protocol.Rules.{bit}
use rust_torrent_client.Peer.Queue.{RequestMetadata}
use rust_torrent_client.Peer.Actions.{block_size}
use rust_torrent_client.Download.Search.Ends.{Ends, Ends-or_panic}
use rust_torrent_client.Download.Pieces.{Piece, reset_blocks}
use rust_torrent_client.Download.Files.{FileSystem}
use rust_torrent_client.Download.Files.Ends.{read-Ends}
use rust_torrent_client.Download.Store.{
  Download, Reply, mark_block, store, retrieve_data, incomplete_blocks_for_piece, handle_event,
  download_loop,
}
use rust_torrent_client.Download.Store.Outcomes.{
  completed, announcements, Finished, Stored, kept, rejected, accepted, store-Stored,
}
use rust_torrent_client.Download.Store.Counts.{
  count, tells_piece, tells_download, told_piece, told_download, completed_at, count-append,
  count-IsFileFinish, all_completed, told_announcements, completed_at-set, not_all,
  completed_at-before, stays_open, not_all-set,
}

module _ (fs : FileSystem) where
  -- Each piece was announced once if it is completed, and else not at all; so was the download.
  pub record Announced (d : Download fs) : Type 0 where
    pub each_piece : (i : ℕ) → told_piece i d.sent ≡ completed_at i d.pieces
    pub whole : told_download d.sent ≡ bit (all_completed d.pieces)

  abbrev pub Grows : Download fs → Download fs → Type 0
  Grows d d' = (i : ℕ) → completed_at i d.pieces ≤ completed_at i d'.pieces

  module _ (calculate_sha1 : Bytes → Bytes) (manager_open : Bool) where
    module _ {i b : ℕ} {q : Piece} {d d' : Download fs}
        (f : Finished fs calculate_sha1 manager_open i b q d d') where
      -- What was told since is that the piece, and maybe the download, is complete.
      told_since :
          (g : ManagerEvent → ℕ)
          → ((i : ℕ) (path : Bytes) → g (file_finish i path) ≡ 0)
          → count g d'.sent ≡ count g d.sent + count g (announcements i b d'.pieces)
      told_since g none_told =
          ap (count g) f.sent
          ∙ omega (
            arith,
            count-append g d.sent (f.told ++ announcements i b d'.pieces),
            count-append g f.told (announcements i b d'.pieces),
            count-IsFileFinish g f.told none_told f.finished,
          )

      module _ {p : Piece} (at : get_elem? d.pieces i ≡ some p)
          (open_piece : p.is_completed ≡ false) where
        at_now :
            (j : ℕ) → completed_at j d'.pieces ≡ (if j == i then 1 else completed_at j d.pieces)
        at_now j = ap (completed_at j) f.pieces ∙ completed_at-set d.pieces i p at (completed q) j

        Finished-Announced : Announced d → Announced d' × Grows d d'
        Finished-Announced a = (
          record {
            each_piece = λ j. ground (
              arith,
              a.each_piece j,
              at_now j,
              told_since (tells_piece j) (λ i path. refl),
              (told_announcements i b j d'.pieces).0,
              completed_at-before d.pieces i p at open_piece,
              ap (λ k. completed_at k d.pieces) {x = j} {y = i},
            );
            whole = omega (
              arith,
              a.whole,
              ap bit (not_all d.pieces i p at open_piece),
              told_since tells_download (λ i path. refl),
              (told_announcements i b 0 d'.pieces).1,
            );
          },
          λ j. ground (
            arith,
            at_now j,
            completed_at-before d.pieces i p at open_piece,
            ap (λ k. completed_at k d.pieces) {x = j} {y = i},
          ),
        )

    Stored-Announced :
        {i b : ℕ} {bytes : Bytes} {p : Piece} {d d' : Download fs}
        → get_elem? d.pieces i ≡ some p
        → Announced d
        → Stored fs calculate_sha1 manager_open i b bytes p d d'
        → Announced d' × Grows d d'
    Stored-Announced at a (kept why) = (a, λ j. omega arith)
    Stored-Announced {i} {b} {bytes} {p} {d} at a (rejected disk stored open_piece full v) =
        let q = reset_blocks (record (mark_block b p) { is_completed = false }) in
        let open_q : q.is_completed ≡ false = unfold reset_blocks in refl in
        (
          record {
            each_piece =
                λ j. a.each_piece j ∙ sym (stays_open d.pieces i p at q j open_piece open_q);
            whole =
                a.whole
                ∙ ap bit (
                    not_all d.pieces i p at open_piece
                    ∙ sym (not_all-set d.pieces i p at q open_q));
          },
          λ j. omega (arith, stays_open d.pieces i p at q j open_piece open_q),
        )
    Stored-Announced {p = p} {d = d} at a (accepted disk stored open_piece v f) =
        Finished-Announced f {p = p} at open_piece
          (record { each_piece = a.each_piece; whole = a.whole })

    -- `store` keeps what was told in step with the pieces, and no piece is lost.
    store-Announced :
        (piece_index block_index : ℕ) (bytes : Bytes) (d : Download fs)
        → Announced d
        → Ensures
            (λ d'. Announced d' × Grows d d')
            (store fs calculate_sha1 manager_open piece_index block_index bytes d)
    store-Announced piece_index block_index bytes d a =
        Ensures-weaken (store-Stored fs calculate_sha1 manager_open piece_index block_index bytes d)
          λ d' (p, at, stored). Stored-Announced at a stored

    retrieve_data-Ends :
        (r : RequestMetadata) (d : Download fs)
        → Ends (retrieve_data fs calculate_sha1 manager_open r d)
    unfolding retrieve_data
    retrieve_data-Ends r d = Ensures-bind (Ends-or_panic (get_elem? d.pieces r.piece_index)) λ p _.
        Ensures-if p.is_completed
          (λ _.
            Ensures-bind (Ensures-checked u64_mod (p.offset + r.offset))
              λ offset _. read-Ends fs d.disk d.files d.file_offsets offset r.block_length)
          (λ _. failed)

    incomplete-Ends :
        (i : ℕ) (d : Download fs)
        → Ends (incomplete_blocks_for_piece fs calculate_sha1 manager_open i d)
    unfolding incomplete_blocks_for_piece
    incomplete-Ends i d =
        Ensures-bind (Ends-or_panic (get_elem? d.pieces i))
          λ p _. Ensures-if p.is_completed (λ _. holds tt) (λ _. holds tt)

    abbrev Keeps : Download fs → Download fs × List Reply → Type 0
    Keeps d (d', _) = Announced d' × Grows d d'

    unchanged : (d : Download fs) → Announced d → Announced d × Grows d d
    unchanged d a = (a, λ j. omega arith)

    handle_event-Keeps :
        (e : ManagerEvent) (d : Download fs)
        → Announced d
        → Ensures (Keeps d) (handle_event fs calculate_sha1 manager_open e d)
    unfolding handle_event
    handle_event-Keeps (download (piece i offset bytes)) d a =
        Ensures-bind (store-Announced i (offset / block_size) bytes d a) λ d' h. holds h
    handle_event-Keeps (require_data r) d a =
        Ensures-bind (retrieve_data-Ends r d) λ buffer _. holds (unchanged d a)
    handle_event-Keeps (require_incomplete_blocks i) d a =
        Ensures-bind (incomplete-Ends i d) λ blocks _. holds (unchanged d a)
    handle_event-Keeps require_have_pieces d a = holds (unchanged d a)
    handle_event-Keeps _ d a = holds (unchanged d a)

    -- Whatever events arrive, `download_loop` never runs out of fuel, and if it returns, the manager
    -- was told once of each piece that is completed and of no other, and of the download exactly if
    -- it is complete, provided this held at the start. A piece that was completed stays so.
    pub download_loop-Announced :
        (events : List ManagerEvent) (d : Download fs)
        → Announced d
        → Ensures
            (λ (d', _). Announced d' × Grows d d')
            (download_loop fs calculate_sha1 manager_open events d)
    unfolding download_loop
    download_loop-Announced [] d a = holds (unchanged d a)
    download_loop-Announced (e ∷ events) d a =
        Ensures-bind (handle_event-Keeps e d a) λ (d_1, replies) (a_1, g_1).
          Ensures-bind (download_loop-Announced events d_1 a_1)
            λ (d_2, rest) (a_2, g_2). holds (a_2, λ j. omega (arith, g_1 j, g_2 j))
