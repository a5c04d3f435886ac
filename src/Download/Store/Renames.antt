-- ===== src/Download/Store/Renames.antt =====
-- `verify_file` of bt/src/base/download.rs touches neither the pieces nor what peers are told.
use rust_torrent_client.Prelude.{
  ℕ, ◌+◌, ◌-◌, ◌≡◌, refl, sym, ap, ◌∙◌, List, [], ◌∷◌, ◌++◌, append_assoc, append-nil, Bool, Bytes,
  ◌==◌, length, get_elem?, take, slice, all, All, All-append, Ensures, holds, failed, panicked,
  Ensures-if, Ensures-bind, Ensures-weaken,
}
use rust_torrent_client.Events.{ManagerEvent, file_finish}
use rust_torrent_client.Download.Search.{Ptr}
use rust_torrent_client.Download.Search.Ends.{Ends, Ends-or_panic, Ensures-minus, search_ptrs-Ends}
use rust_torrent_client.Download.Files.{FileSystem}
use rust_torrent_client.Download.Files.Ends.{Ends-or_io}
use rust_torrent_client.Download.Store.{
  Download, is_temp, send_manager, rename_temp_file, divide, verify_one, verify_files, verify_file,
}

-- A message that a file is finished.
abbrev pub IsFileFinish : ManagerEvent → Type 0
IsFileFinish (file_finish _ _) = Unit
IsFileFinish _ = ⊥

module _ (fs : FileSystem) where
  -- From `d` to `d'` only files were renamed, and the manager was told of nothing else.
  pub record Renames (d d' : Download fs) : Type 0 where
    pub pieces : d'.pieces ≡ d.pieces
    pub file_offsets : d'.file_offsets ≡ d.file_offsets
    pub piece_length : d'.piece_length ≡ d.piece_length
    pub told : List ManagerEvent
    pub finished : All IsFileFinish told
    pub sent : d'.sent ≡ d.sent ++ told

  Renames-refl : (d : Download fs) → Renames d d
  Renames-refl d = record {
    pieces = refl;
    file_offsets = refl;
    piece_length = refl;
    told = [];
    finished = tt;
    sent = sym (append-nil d.sent);
  }

  Renames-trans : {a b c : Download fs} → Renames a b → Renames b c → Renames a c
  Renames-trans {a} r s = record {
    pieces = s.pieces ∙ r.pieces;
    file_offsets = s.file_offsets ∙ r.file_offsets;
    piece_length = s.piece_length ∙ r.piece_length;
    told = r.told ++ s.told;
    finished = All-append IsFileFinish r.told s.told r.finished s.finished;
    sent = s.sent ∙ ap (λ l. l ++ s.told) r.sent ∙ append_assoc a.sent r.told s.told;
  }

  module _ (calculate_sha1 : Bytes → Bytes) (manager_open : Bool) where
    rename_temp_file-Renames :
        (file_index : ℕ) (d : Download fs)
        → Ensures (Renames d) (rename_temp_file fs calculate_sha1 manager_open file_index d)
    unfolding rename_temp_file send_manager
    rename_temp_file-Renames file_index d =
        Ensures-bind (Ends-or_panic (get_elem? d.file_paths file_index)) λ path _.
          Ensures-if (is_temp path)
            (λ _.
              Ensures-bind (Ends-or_io (fs.rename d.disk path (take (length path - 5) path)))
                λ disk_1 _.
                  Ensures-bind (Ends-or_io (fs.open_file disk_1 (take (length path - 5) path)))
                    λ (disk_2, file) _.
                      Ensures-bind (Ends-or_panic (get_elem? d.files file_index)) λ old _.
                        Ensures-if manager_open
                          (λ _. holds (record {
                            pieces = refl;
                            file_offsets = refl;
                            piece_length = refl;
                            told = file_finish file_index (take (length path - 5) path) ∷ [];
                            finished = (tt, tt);
                            sent = refl;
                          }))
                          (λ _. failed))
            (λ _. holds (Renames-refl d))

    divide-Ends : (a b : ℕ) → Ends (divide a b)
    divide-Ends a b = Ensures-if (b == 0) (λ _. panicked) (λ _. holds tt)

    verify_one-Renames :
        (file_index : ℕ) (d : Download fs)
        → Ensures (Renames d) (verify_one fs calculate_sha1 manager_open file_index d)
    unfolding verify_one
    verify_one-Renames file_index d =
        Ensures-bind (Ends-or_panic (get_elem? d.file_offsets file_index)) λ begin _.
          Ensures-bind (divide-Ends begin d.piece_length) λ low _.
            Ensures-bind (Ends-or_panic (get_elem? d.file_offsets (file_index + 1))) λ end _.
              Ensures-bind (Ensures-minus end 1) λ last _.
                Ensures-bind (divide-Ends last d.piece_length) λ high _.
                  Ensures-bind (Ends-or_panic (slice d.pieces low (high + 1))) λ contained_pieces _.
                    Ensures-if (all (λ p. p.is_completed) contained_pieces)
                      (λ _. rename_temp_file-Renames file_index d) (λ _. holds (Renames-refl d))

    verify_files-Renames :
        (file_index : ℕ) (ptrs : List Ptr) (d : Download fs)
        → Ensures (Renames d) (verify_files fs calculate_sha1 manager_open file_index ptrs d)
    unfolding verify_files
    verify_files-Renames file_index [] d = holds (Renames-refl d)
    verify_files-Renames file_index (p ∷ ptrs) d =
        Ensures-bind (verify_one-Renames file_index d) λ d_1 r.
          Ensures-weaken (verify_files-Renames (file_index + 1) ptrs d_1) λ d_2 s. Renames-trans r s

    -- `verify_file` renames the files that are complete, and does nothing else.
    pub verify_file-Renames :
        (piece_index : ℕ) (d : Download fs)
        → Ensures (Renames d) (verify_file fs calculate_sha1 manager_open piece_index d)
    unfolding verify_file
    verify_file-Renames piece_index d =
        Ensures-bind (Ends-or_panic (get_elem? d.pieces piece_index)) λ p _.
          Ensures-bind (search_ptrs-Ends d.file_offsets p.offset p.length)
            λ (index, ptrs) _. verify_files-Renames index ptrs d
