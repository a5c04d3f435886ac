-- ===== src/Peer/Invariant/Answers.antt =====
-- The other methods of `PeerConnection` keep the invariant, and each takes only steps of the
-- protocol.
use rust_torrent_client.Prelude.{
  ℕ, zero, suc, ◌+◌, ◌≡◌, refl, ◌∙◌, List, [], ◌∷◌, Option, none, some, true, false, not, ◌||◌,
  Bytes, differ, differ-true, differ-false, Bool-cases, inl, inr, arith, if◌then◌else◌, Ensures,
  holds, Ensures-if, Ensures-bind, Ensures-weaken, Ensures-or_panic,
}
use rust_torrent_client.Peer.Queue.{RequestMetadata, has, pop}
use rust_torrent_client.Peer.Queue.Laws.{pop-Unique}
use rust_torrent_client.Events.{require_data, require_incomplete_blocks}
use rust_torrent_client.Ipc.{piece, interested, not_interested}
use rust_torrent_client.Peer.State.{PeerConnection, Env}
use rust_torrent_client.Peer.Actions.{
  set_his_requests, upload_block, upload_next_block, queue_one, queue_all, queue_blocks,
  am_interested, update_my_interested_status,
}
use rust_torrent_client.Peer.Bits.{read_bit, read_bits, set_has_piece}
use rust_torrent_client.Peer.Protocol.{view, Acts, here, next, Acts-trans, one, serve, announce}
use rust_torrent_client.Peer.Invariant.{IsValid}
use rust_torrent_client.Peer.Invariant.Parts.{Valid-his, Valid-queued}
use rust_torrent_client.Peer.Invariant.Requests.{
  Ensures-send_message, Ensures-send_download, Ensures-or_canceled,
}

-- From `c` to `c'` the protocol was kept to, and `c'` is valid.
pub record Keeps (c c' : PeerConnection) : Type 0 where
  pub valid : IsValid c'
  pub acts : Acts (view c) (view c')

pub Keeps-refl : (c : PeerConnection) → IsValid c → Keeps c c
Keeps-refl c v = record { valid = v; acts = here }

pub Keeps-trans : {a b c : PeerConnection} → Keeps a b → Keeps b c → Keeps a c
Keeps-trans r s = record { valid = s.valid; acts = Acts-trans r.acts s.acts }

-- When a block may be sent.
record MayServe (c : PeerConnection) : Type 0 where
  idle : c.upload_in_progress ≡ false
  free : c.he.is_choked ≡ false
  wanted : c.he.is_interested ≡ true

upload_block-Keeps :
    (env : Env) (o : Option RequestMetadata) (c : PeerConnection)
    → IsValid c
    → MayServe c
    → Ensures (Keeps c) (upload_block env o c)
unfolding upload_block
upload_block-Keeps env none c v may = holds (Keeps-refl c v)
upload_block-Keeps env (some r) c v may =
    Ensures-bind
      (Ensures-send_download {P = λ c'. Keeps c c' × MayServe c'} env c (require_data r) (
        record { valid = v; acts = here },
        record { idle = may.idle; free = may.free; wanted = may.wanted },
      ))
      λ c_1 (k, m).
        Ensures-bind (Ensures-or_canceled {P = λ _. Unit {0}} (env.block_data r) λ _. tt) λ block _.
          Ensures-send_message env (record c_1 { upload_in_progress = true })
            (piece r.piece_index r.offset block)
            (record {
              valid = k.valid;
              acts =
                  next k.acts
                    (serve (view c_1) r.piece_index r.offset block m.idle m.free m.wanted);
            })

pub upload_next_block-Keeps :
    (env : Env) (c : PeerConnection) → IsValid c → Ensures (Keeps c) (upload_next_block env c)
unfolding upload_next_block
upload_next_block-Keeps env c v =
    Ensures-if (c.upload_in_progress || c.he.is_choked || not c.he.is_interested)
      (λ _. holds (Keeps-refl c v))
      (λ may.
        let (q, waiting) = pop c.he.requests in
        Ensures-weaken
          (upload_block-Keeps env waiting (set_his_requests q c)
            (Valid-his v (pop-Unique c.he.requests v.his_requests))
            (record {
              idle = ground (arith, may);
              free = ground (arith, may);
              wanted = ground (arith, may);
            }))
          λ c' k. record { valid = k.valid; acts = k.acts })

-- The blocks to request are no part of the view.
abbrev Quiet : PeerConnection → PeerConnection → Type 0
Quiet c c' = IsValid c' × (view c' ≡ view c)

queue_one-Quiet : (p b n : ℕ) (c : PeerConnection) → IsValid c → Quiet c (queue_one p b n c)
unfolding queue_one
queue_one-Quiet p b n c v = elim (Bool-cases (has c.me.requests p b)) [
  | inl old ↦ rw old (v, refl)
  | inr fresh ↦ rw fresh (Valid-queued v p b n fresh, refl)
]

queue_all-Quiet :
    (p : ℕ) (blocks : List (ℕ × ℕ)) (c : PeerConnection)
    → IsValid c
    → Quiet c (queue_all p blocks c)
unfolding queue_all
queue_all-Quiet p [] c v = (v, refl)
queue_all-Quiet p ((b, n) ∷ blocks) c v =
    let (v_1, same) = queue_one-Quiet p b n c v in
    let (v_2, same') = queue_all-Quiet p blocks (queue_one p b n c) v_1 in (v_2, same' ∙ same)

pub queue_blocks-Keeps :
    (env : Env) (p : ℕ) (c : PeerConnection) → IsValid c → Ensures (Keeps c) (queue_blocks env p c)
unfolding queue_blocks
queue_blocks-Keeps env p c v =
    Ensures-bind
      (Ensures-send_download {P = Keeps c} env c (require_incomplete_blocks p)
        (record { valid = v; acts = here }))
      λ c_1 k.
        Ensures-bind (Ensures-or_canceled {P = λ _. Unit {0}} (env.incomplete_blocks p) λ _. tt)
          λ blocks _.
            let (v', same) = queue_all-Quiet p blocks c_1 k.valid in
            holds (record { valid = v'; acts = rw same k.acts })

pub update_my_interested_status-Keeps :
    (env : Env) (c : PeerConnection)
    → IsValid c
    → Ensures
        (λ c'. Keeps c c' × (c'.me.is_interested ≡ am_interested c'))
        (update_my_interested_status env c)
unfolding update_my_interested_status
update_my_interested_status-Keeps env c v =
    Ensures-if (differ c.me.is_interested (am_interested c))
      (λ differs.
        Ensures-send_message env (record c { me = record c.me { is_interested = am_interested c } })
          (if am_interested c then interested else not_interested)
          (
            record {
              valid = v;
              acts = one (announce (view c) (am_interested c) (differ-true _ _ differs));
            },
            refl,
          ))
      (λ agrees. holds (Keeps-refl c v, differ-false _ _ agrees))

pub read_bits-Keeps :
    (env : Env) (bytes : Bytes) (rounds i : ℕ) (c : PeerConnection)
    → IsValid c
    → Ensures (Keeps c) (read_bits env bytes rounds i c)
unfolding read_bits
read_bits-Keeps env bytes zero i c v = holds (Keeps-refl c v)
read_bits-Keeps env bytes (suc rounds) i c v =
    Ensures-bind (Ensures-or_panic {P = λ _. Unit {0}} (read_bit bytes i) λ _ _. tt) λ value _.
      let c_0 = set_has_piece i value c in
      Ensures-bind
        (Ensures-if {P = Keeps c} value
          (λ _.
            Ensures-weaken (queue_blocks-Keeps env i c_0 v)
              λ c' k. record { valid = k.valid; acts = k.acts })
          (λ _. holds (record { valid = v; acts = here })))
        λ c_1 k.
          Ensures-weaken (read_bits-Keeps env bytes rounds (i + 1) c_1 k.valid)
            λ c_2 l. Keeps-trans k l
