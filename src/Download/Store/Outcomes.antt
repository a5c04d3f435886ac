-- ===== src/Download/Store/Outcomes.antt =====
-- What `store` of bt/src/base/download.rs does on every branch.
use rust_torrent_client.Prelude.{
  ℕ, ◌<◌, ◌≡◌, refl, sym, ap, ◌∙◌, List, [], ◌∷◌, ◌++◌, append_assoc, append-nil, some, Bool, true,
  false, inl, inr, ◌⊎◌, Bytes, if◌then◌else◌, length, get_elem?, get_elem?-lt, get_elem?-set_self,
  set, all, All, ok, Ensures, holds, failed, Ensures-if, Ensures-bind, Ensures-weaken,
  Ensures-or_panic,
}
use rust_torrent_client.Ipc.{block_completed, piece_completed, download_completed}
use rust_torrent_client.Events.{ManagerEvent, broadcast}
use rust_torrent_client.Peer.Handshake.{bytes_eq}
use rust_torrent_client.Download.Search.Ends.{Ends, Ends-or_panic}
use rust_torrent_client.Download.Pieces.{Piece, has_block, has_all_blocks, reset_blocks}
use rust_torrent_client.Download.Files
use rust_torrent_client.Download.Files.{FileSystem, store_block}
use rust_torrent_client.Download.Files.Ends.{Ends-value, store_block-Ends, read-Ends}
use rust_torrent_client.Download.Store.{
  Download, mark_block, set_piece, send_manager, verify, is_complete, announce_piece,
  announce_download, finish, check_piece, store,
}
use rust_torrent_client.Download.Store.Renames.{IsFileFinish, verify_file-Renames}

abbrev pub completed : Piece → Piece
completed p = record p { is_completed = true }

-- What is sent when a piece is finished, after the files that are finished.
abbrev pub announcements : ℕ → ℕ → List Piece → List ManagerEvent
announcements piece_index block_index pieces =
    broadcast (block_completed piece_index block_index)
    ∷ broadcast (piece_completed piece_index)
    ∷ (if all (λ p. p.is_completed) pieces then broadcast download_completed ∷ [] else [])

has_block-Ends : (p : Piece) (block_index : ℕ) → Ends (has_block p block_index)
unfolding has_block
has_block-Ends p block_index =
    Ensures-bind (Ends-or_panic (get_elem? p.blocks block_index)) λ b _. holds tt

module _ (fs : FileSystem) (calculate_sha1 : Bytes → Bytes) (manager_open : Bool) where
  -- The piece `p` is completed: files were renamed, and the manager was told.
  pub record Finished (piece_index block_index : ℕ) (p : Piece) (d d' : Download fs) : Type 0 where
    pub pieces : d'.pieces ≡ set d.pieces piece_index (completed p)
    pub told : List ManagerEvent
    pub finished : All IsFileFinish told
    pub sent : d'.sent ≡ d.sent ++ (told ++ announcements piece_index block_index d'.pieces)

  -- What the hash of the piece `p` is compared to.
  abbrev pub Verified : Piece → Download fs → Bool → Type 0
  Verified p d b =
      (buffer : Bytes) × (Files.read fs d.disk d.files d.file_offsets p.offset p.length ≡ ok buffer)
      × (bytes_eq p.hash (calculate_sha1 buffer) ≡ b)

  abbrev pub stored_on : fs.Disk → Download fs → Download fs
  stored_on disk d = record d { disk = disk }

  -- What `store` does to the piece `p`: nothing if the block or the piece is there already. Else the
  -- block is written and marked. If it was the last one and the hash does not match, all marks are
  -- taken back and nobody is told; in every other case the piece counts as completed.
  pub data Stored (piece_index block_index : ℕ) (bytes : Bytes) (p : Piece) (d : Download fs)
      : Download fs → Type 0 where
    kept :
        (has_block p block_index ≡ ok true) ⊎ (p.is_completed ≡ true)
        → Stored piece_index block_index bytes p d d
    rejected :
        (disk : fs.Disk)
        → store_block fs d.disk d.files d.file_offsets p.offset block_index bytes ≡ ok disk
        → p.is_completed ≡ false
        → has_all_blocks (mark_block block_index p) ≡ true
        → Verified (mark_block block_index p) (stored_on disk d) false
        → Stored piece_index block_index bytes p d (
            set_piece fs calculate_sha1 manager_open piece_index
              (reset_blocks (record (mark_block block_index p) { is_completed = false }))
              (stored_on disk d))
    accepted :
        (disk : fs.Disk) {d' : Download fs}
        → store_block fs d.disk d.files d.file_offsets p.offset block_index bytes ≡ ok disk
        → p.is_completed ≡ false
        → (has_all_blocks (mark_block block_index p) ≡ true
            → Verified (mark_block block_index p) (stored_on disk d) true)
        → Finished piece_index block_index (mark_block block_index p) (stored_on disk d) d'
        → Stored piece_index block_index bytes p d d'

  -- Only these events were sent.
  record Tells (d d' : Download fs) (events : List ManagerEvent) : Type 0 where
    pieces : d'.pieces ≡ d.pieces
    sent : d'.sent ≡ d.sent ++ events

  Tells-trans :
      {a b c : Download fs} {es gs : List ManagerEvent}
      → Tells a b es
      → Tells b c gs
      → Tells a c (es ++ gs)
  Tells-trans {a} {es = es} {gs = gs} r t = record {
    pieces = t.pieces ∙ r.pieces;
    sent = t.sent ∙ ap (λ l. l ++ gs) r.sent ∙ append_assoc a.sent es gs;
  }

  send_manager-Tells :
      (e : ManagerEvent) (d : Download fs)
      → Ensures (λ d'. Tells d d' (e ∷ [])) (send_manager fs calculate_sha1 manager_open e d)
  unfolding send_manager
  send_manager-Tells e d =
      Ensures-if manager_open (λ _. holds (record { pieces = refl; sent = refl })) (λ _. failed)

  announce_piece-Tells :
      (piece_index : ℕ) (p : Piece) (d : Download fs)
      → get_elem? d.pieces piece_index ≡ some p
      → p.is_completed ≡ true
      → Ensures
          (λ d'. Tells d d' (broadcast (piece_completed piece_index) ∷ []))
          (announce_piece fs calculate_sha1 manager_open piece_index d)
  unfolding announce_piece
  announce_piece-Tells piece_index p d at complete =
      Ensures-bind
        (Ensures-or_panic {P = λ q. q.is_completed ≡ true} (get_elem? d.pieces piece_index)
          (λ q e. cc (e, at, complete)))
        λ q complete_q.
          Ensures-if q.is_completed
            (λ _. send_manager-Tells (broadcast (piece_completed piece_index)) d)
            (λ open_q. absurd (cc (open_q, complete_q)))

  announce_download-Tells :
      (d : Download fs)
      → Ensures
          (λ d'.
            Tells d d' (
              if all (λ p. p.is_completed) d.pieces then broadcast download_completed ∷ [] else []))
          (announce_download fs calculate_sha1 manager_open d)
  unfolding announce_download is_complete
  announce_download-Tells d = by_test (all (λ p. p.is_completed) d.pieces)
    where
      by_test :
          (b : Bool)
          → Ensures
              (λ d'. Tells d d' (if b then broadcast download_completed ∷ [] else []))
              (if b
                then send_manager fs calculate_sha1 manager_open (broadcast download_completed) d
                else ok d)
      by_test true = send_manager-Tells (broadcast download_completed) d
      by_test false = holds (record { pieces = refl; sent = sym (append-nil d.sent) })

  finish-Finished :
      (piece_index block_index : ℕ) (p : Piece) (d : Download fs)
      → piece_index < length d.pieces
      → Ensures
          (Finished piece_index block_index p d)
          (finish fs calculate_sha1 manager_open piece_index block_index p d)
  unfolding finish
  finish-Finished piece_index block_index p d inside =
      Ensures-bind
        (verify_file-Renames fs calculate_sha1 manager_open piece_index
          (set_piece fs calculate_sha1 manager_open piece_index (completed p) d))
        λ d_1 r.
          Ensures-bind
            (send_manager-Tells (broadcast (block_completed piece_index block_index)) d_1)
            λ d_2 t_2.
              let here =
                ap (λ ps. get_elem? ps piece_index) (t_2.pieces ∙ r.pieces)
                ∙ get_elem?-set_self d.pieces piece_index (completed p) inside in
              Ensures-bind (announce_piece-Tells piece_index (completed p) d_2 here refl) λ d_3 t_3.
                Ensures-weaken (announce_download-Tells d_3) λ d_4 t_4. record {
                  pieces = t_4.pieces ∙ t_3.pieces ∙ t_2.pieces ∙ r.pieces;
                  told = r.told;
                  finished = r.finished;
                  sent =
                      let t = Tells-trans (Tells-trans t_2 t_3) t_4 in
                      let last =
                        ap (λ ps. r.told ++ announcements piece_index block_index ps)
                          (sym t_4.pieces) in
                      t.sent
                      ∙ ap (λ l. l ++ announcements piece_index block_index d_3.pieces) r.sent
                      ∙ append_assoc d.sent r.told
                          (announcements piece_index block_index d_3.pieces)
                      ∙ ap (λ l. d.sent ++ l) last;
                }

  check_piece-Stored :
      (piece_index block_index : ℕ) (bytes : Bytes) (p : Piece) (d : Download fs) (disk : fs.Disk)
      → piece_index < length d.pieces
      → store_block fs d.disk d.files d.file_offsets p.offset block_index bytes ≡ ok disk
      → p.is_completed ≡ false
      → Ensures (Stored piece_index block_index bytes p d) (
          check_piece fs calculate_sha1 manager_open piece_index block_index
            (mark_block block_index p)
            (stored_on disk d))
  unfolding check_piece verify
  check_piece-Stored piece_index block_index bytes p d disk inside stored open_piece =
      let marked = mark_block block_index p in
      let finishes = finish-Finished piece_index block_index marked (stored_on disk d) inside in
      Ensures-if (has_all_blocks marked)
        (λ full.
          Ensures-bind {P = Verified marked (stored_on disk d)}
            (Ensures-bind (Ends-value (read-Ends fs disk d.files d.file_offsets p.offset p.length))
              λ buffer e. holds (buffer, e, refl))
            λ valid v.
              Ensures-if valid
                (λ good.
                  Ensures-weaken finishes
                    λ d' f. accepted disk stored open_piece (λ _. (v.0, v.1, v.2 ∙ good)) f)
                (λ bad. holds (rejected disk stored open_piece full (v.0, v.1, v.2 ∙ bad))))
        (λ more.
          Ensures-weaken finishes
            λ d' f. accepted disk stored open_piece (λ full. absurd (cc (more, full))) f)

  -- Whatever block arrives, `store` never runs out of fuel, and if it returns, it did to the piece
  -- what `Stored` says.
  pub store-Stored :
      (piece_index block_index : ℕ) (bytes : Bytes) (d : Download fs)
      → Ensures
          (λ d'.
            (p : Piece) × (get_elem? d.pieces piece_index ≡ some p)
            × Stored piece_index block_index bytes p d d')
          (store fs calculate_sha1 manager_open piece_index block_index bytes d)
  unfolding store
  store-Stored piece_index block_index bytes d =
      Ensures-bind
        (Ensures-or_panic {P = λ p. get_elem? d.pieces piece_index ≡ some p}
          (get_elem? d.pieces piece_index) (λ p e. e))
        λ p at. Ensures-bind (Ends-value (has_block-Ends p block_index)) λ had is_had.
          Ensures-if had (λ yes. holds (p, at, kept (inl (is_had ∙ ap ok yes))))
            (λ _.
              Ensures-if p.is_completed (λ done. holds (p, at, kept (inr done)))
                (λ open_piece.
                  Ensures-bind
                    (Ends-value (
                      store_block-Ends fs d.disk d.files d.file_offsets p.offset block_index bytes))
                    λ disk stored.
                      Ensures-weaken
                        (check_piece-Stored piece_index block_index bytes p d disk
                          (get_elem?-lt d.pieces piece_index p at) stored open_piece)
                        λ d' s. (p, at, s)))
