-- ===== src/Download/Store/Unverified.antt =====
-- `store` of bt/src/base/download.rs marks a piece as completed outside of the test that its blocks
-- are all there.
use rust_torrent_client.Prelude.{
  ℕ, ◌<◌, ◌≡◌, refl, ap, subst, ◌∙◌, List, [], Option, none, some, Bool, true, false, inl, inr,
  Bytes, length, get_elem?, get_elem?-lt, get_elem?-some, get_elem?-set_self, length-set, arith, ok,
  Ensures, Ensures-weaken,
}
use rust_torrent_client.Download.Pieces.{Block, Piece, has_block, has_all_blocks}
use rust_torrent_client.Download.Files.{FileSystem}
use rust_torrent_client.Download.Store.{
  Download, mark_in, mark_block, store, incomplete_blocks_for_piece,
}
use rust_torrent_client.Download.Store.Outcomes.{
  completed, Stored, kept, rejected, accepted, store-Stored,
}

length-mark_in :
    (blocks : List Block) (i : ℕ) (o : Option Block) → length (mark_in blocks i o) ≡ length blocks
length-mark_in blocks i none = refl
length-mark_in blocks i (some b) = length-set blocks i (record b { is_completed = true })

module _ (fs : FileSystem) (calculate_sha1 : Bytes → Bytes) (manager_open : Bool) where
  -- A piece that counts as completed: no block of it is asked for any more, and one that comes is
  -- dropped.
  pub record Closed (piece_index : ℕ) (p : Piece) (d : Download fs) : Type 0 where
    pub nothing_missing :
        incomplete_blocks_for_piece fs calculate_sha1 manager_open piece_index d ≡ ok []
    pub drops :
        (block_index : ℕ) (bytes : Bytes)
        → block_index < length p.blocks
        → store fs calculate_sha1 manager_open piece_index block_index bytes d ≡ ok d

  -- A completed piece is closed.
  completed-Closed :
      (i : ℕ) (p q : Piece) (d : Download fs)
      → get_elem? d.pieces i ≡ some q
      → q.is_completed ≡ true
      → length q.blocks ≡ length p.blocks
      → Closed i p d
  completed-Closed i p q d at complete same = record {
    nothing_missing = unfold incomplete_blocks_for_piece in rw at (rw complete);
    drops = λ b bytes inside.
        let (block, here) = get_elem?-some q.blocks b (omega (arith, same)) in
        unfold store has_block in rw at (rw here (ground (arith, complete)));
  }

  -- Whatever the hash of the piece is: if a block comes that is not there yet, of a piece that is
  -- not completed and lacks another block too, then `store` does not run out of fuel, and if it
  -- returns, no block of the piece is listed as missing any more, and the blocks that come for it
  -- are dropped.
  pub store-Closed :
      (i b : ℕ) (bytes : Bytes) (d : Download fs) (p : Piece)
      → get_elem? d.pieces i ≡ some p
      → p.is_completed ≡ false
      → has_block p b ≡ ok false
      → has_all_blocks (mark_block b p) ≡ false
      → Ensures (Closed i p) (store fs calculate_sha1 manager_open i b bytes d)
  store-Closed i b bytes d p at open_piece lacks lacks_another =
      Ensures-weaken (store-Stored fs calculate_sha1 manager_open i b bytes d)
        λ d' (q, at_q, stored).
          let is_p : q ≡ p = cc (at, at_q) in
          closes d'
            (subst (λ q. Stored fs calculate_sha1 manager_open i b bytes q d d') is_p stored)
    where
      closes :
          (d' : Download fs)
          → Stored fs calculate_sha1 manager_open i b bytes p d d'
          → Closed i p d'
      closes d' (kept (inl had)) = absurd (cc (had, lacks))
      closes d' (kept (inr complete)) = absurd (cc (complete, open_piece))
      closes d' (rejected disk stored open_q full v) = absurd (cc (full, lacks_another))
      closes d' (accepted disk stored open_q v f) =
          completed-Closed i p (completed (mark_block b p)) d'
            (ap (λ ps. get_elem? ps i) f.pieces
              ∙ get_elem?-set_self d.pieces i (completed (mark_block b p))
                  (get_elem?-lt d.pieces i p at))
            refl (length-mark_in p.blocks b (get_elem? p.blocks b))
