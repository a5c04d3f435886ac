-- ===== src/Download/Store/Start.antt =====
-- The download task from its start.
use rust_torrent_client.Prelude.{
  ℕ, zero, suc, ◌+◌, ◌-◌, ◌*◌, ◌%◌, ◌<◌, ◌≡◌, refl, sym, ap, ◌∙◌, List, [], ◌∷◌, Bool, false, Bytes,
  All, All-get, u32_mod, u64_mod, leb, ltb, length, get_elem?, get_elem?-some, arith, Ensures,
  holds, panicked, Ensures-if, Ensures-bind, Ensures-weaken, Ensures-checked,
}
use rust_torrent_client.Events.{ManagerEvent}
use rust_torrent_client.Peer.Protocol.Rules.{bit}
use rust_torrent_client.Peer.Actions.{block_size}
use rust_torrent_client.Download.Search.Ends.{Ends, Ends-or_panic, Ensures-minus}
use rust_torrent_client.Download.Pieces
use rust_torrent_client.Download.Pieces.{
  Piece, num_blocks, block_length, new_blocks, piece_size, create_from, create_pieces,
}
use rust_torrent_client.Download.Files.{FileSystem}
use rust_torrent_client.Download.Store.{Download, start, run_download}
use rust_torrent_client.Download.Store.Counts.{completed_at, told_piece, told_download, not_all}
use rust_torrent_client.Download.Store.Announced.{Announced, download_loop-Announced}

new_blocks-Ends : (rounds num size i : ℕ) → Ends (new_blocks rounds num size i)
unfolding new_blocks block_length
new_blocks-Ends zero num size i = holds tt
new_blocks-Ends (suc rounds) num size i =
    Ensures-bind {P = λ _. Unit {0}}
      (Ensures-bind (Ensures-minus num 1) λ last _.
        Ensures-if (ltb i last) (λ _. holds tt)
          (λ _.
            Ensures-bind (Ensures-checked u32_mod (block_size * (last % u32_mod)))
              λ before _. Ensures-weaken (Ensures-minus size before) λ _ _. tt))
      λ len _. Ensures-bind (new_blocks-Ends rounds num size (i + 1)) λ blocks _. holds tt

abbrev IsOpen : Piece → Type 0
IsOpen p = p.is_completed ≡ false

abbrev Made : ℕ → List Piece → Type 0
Made n pieces = All IsOpen pieces × (length pieces ≡ n)

create_from-Made :
    (rounds total size num : ℕ) (shas : List Bytes) (i : ℕ)
    → Ensures (Made rounds) (create_from rounds total size num shas i)
unfolding create_from piece_size Pieces.new
create_from-Made zero total size num shas i = holds (tt, refl)
create_from-Made (suc rounds) total size num shas i =
    Ensures-bind (Ensures-checked u64_mod (i * size)) λ offset _.
      Ensures-bind {P = λ _. Unit {0}}
        (Ensures-bind (Ensures-minus num 1) λ last _.
          Ensures-if (ltb i last) (λ _. holds tt)
            (λ _.
              Ensures-if (leb total offset) (λ _. panicked)
                (λ _. Ensures-if (ltb size (total - offset)) (λ _. panicked) (λ _. holds tt))))
        λ n _. Ensures-bind (Ends-or_panic (get_elem? shas i)) λ sha _.
          Ensures-bind {P = IsOpen}
            (Ensures-bind
              (new_blocks-Ends (num_blocks (n % u32_mod)) (num_blocks (n % u32_mod)) (n % u32_mod)
                0)
              λ blocks _. holds refl)
            λ p open_p.
              Ensures-bind (create_from-Made rounds total size num shas (i + 1))
                λ pieces (open_all, count). holds ((open_p, open_all), ap suc count)

none_completed : (pieces : List Piece) (i : ℕ) → All IsOpen pieces → completed_at i pieces ≡ 0
none_completed [] i h = refl
none_completed (p ∷ pieces) zero h = ap bit h.0
none_completed (p ∷ pieces) (suc i) h = none_completed pieces i h.1

module _ (fs : FileSystem) (calculate_sha1 : Bytes → Bytes) (manager_open : Bool) where
  start-Announced :
      (d : Download fs) (n : ℕ) → 0 < n → Made n d.pieces → d.sent ≡ [] → Announced fs d
  start-Announced d n some_piece (open_all, count) quiet =
      let first = get_elem?-some d.pieces 0 (omega (arith, count, some_piece)) in
      record {
        each_piece = λ i. ap (told_piece i) quiet ∙ sym (none_completed d.pieces i open_all);
        whole =
            ap told_download quiet
            ∙ ap bit (
                sym (
                  not_all d.pieces 0 first.0 first.1
                    (All-get IsOpen d.pieces 0 first.0 open_all first.1)));
      }

  -- A download task that starts on at least one piece, whatever events arrive, never runs out of
  -- fuel, and if it returns, the manager was told once of each piece that is completed and of no
  -- other, and of the download exactly if it is complete.
  pub run_download-Announced :
      (disk : fs.Disk) (file_paths : List Bytes) (files : List fs.File) (file_offsets : List ℕ)
      (piece_length num_pieces : ℕ) (shas : List Bytes) (events : List ManagerEvent)
      → 0 < num_pieces
      → Ensures
          (λ (d, _). Announced fs d)
          (run_download fs calculate_sha1 manager_open disk file_paths files file_offsets
            piece_length num_pieces shas events)
  unfolding run_download start create_pieces
  run_download-Announced disk file_paths files file_offsets piece_length num_pieces shas events
        some_piece =
      Ensures-bind {P = Announced fs}
        (Ensures-bind (Ensures-minus (length file_offsets) 1) λ last _.
          Ensures-bind (Ends-or_panic (get_elem? file_offsets last)) λ len _.
            Ensures-bind (create_from-Made num_pieces len piece_length num_pieces shas 0)
              λ pieces made. holds (start-Announced _ num_pieces some_piece made refl))
        λ d a.
          Ensures-weaken (download_loop-Announced fs calculate_sha1 manager_open events d a)
            λ d' h. h.0
