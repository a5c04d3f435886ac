-- ===== src/Peer/Refinement/Steps.antt =====
-- One event of `peer_conn_loop` of bt/src/peer/peer_connection.rs keeps the invariant and to the
-- protocol.
use rust_torrent_client.Prelude.{
  ◌/◌, Option, none, some, true, false, arith, ltb, not, ◌||◌, subst, sym, Bool-cases, inl, inr,
  length, Outcome, ◌>>=◌, Ensures, holds, failed, panicked, Ensures-if, Ensures-bind,
  Ensures-weaken,
}
use rust_torrent_client.Ipc.{
  Message, keep_alive, choke, un_choke, interested, not_interested, have, bitfield, request, piece,
  cancel, port, Ipc, block_completed, piece_completed, download_completed, message, block_uploaded,
}
use rust_torrent_client.Stream.{Error}
use rust_torrent_client.Events.{download}
use rust_torrent_client.Peer.Queue
use rust_torrent_client.Peer.Queue.{RequestMetadata}
use rust_torrent_client.Peer.Queue.Laws.{add-Unique, remove-Unique}
use rust_torrent_client.Peer.State.{PeerConnection, Env, Step, send_message}
use rust_torrent_client.Peer.Actions.{
  block_size, set_my_requests, set_his_requests, request_more_blocks, upload_next_block,
  update_my_interested_status,
}
use rust_torrent_client.Peer.Process.{
  set_me_choked, set_he_choked, set_he_interested, process_message, send_cancel, cancel_block,
  handle_ipc,
}
use rust_torrent_client.Peer.Protocol.{
  view, Acts, here, one, unchoke, withdraw, tell_piece, choked_after, interest_after,
  uploading_after,
}
use rust_torrent_client.Peer.Invariant.{IsValid}
use rust_torrent_client.Peer.Invariant.Parts.{Valid-his, Valid-answered, Valid-dropped}
use rust_torrent_client.Peer.Invariant.Requests.{
  Ensures-send_message, Ensures-send_download, request_more_blocks-Ensures,
}
use rust_torrent_client.Peer.Invariant.Answers.{
  Keeps, Keeps-refl, Keeps-trans, upload_next_block-Keeps, queue_blocks-Keeps,
  update_my_interested_status-Keeps, read_bits-Keeps,
}

request_more_blocks-Keeps :
    (env : Env) (c : PeerConnection) → IsValid c → Ensures (Keeps c) (request_more_blocks env c)
request_more_blocks-Keeps env c v =
    Ensures-weaken (request_more_blocks-Ensures env c v) λ c' (r, idle, _).
      elim (Bool-cases (c.me.is_choked || not c.me.is_interested)) [
        | inl h ↦ subst (Keeps c) (sym (idle h)) (Keeps-refl c v)
        | inr h ↦ record { valid = r.valid; acts = r.acts (ground (arith, h)) (ground (arith, h)) }
      ]

-- What comes after a step that keeps the protocol.
then_Keeps :
    {c : PeerConnection} {r : Outcome Error PeerConnection} (f : Step)
    → Ensures (Keeps c) r
    → ((c' : PeerConnection) → IsValid c' → Ensures (Keeps c') (f c'))
    → Ensures (Keeps c) (r >>= f)
then_Keeps f first rest =
    Ensures-bind first λ c_1 k. Ensures-weaken (rest c_1 k.valid) λ c_2 l. Keeps-trans k l

status-Keeps :
    (env : Env) (c : PeerConnection)
    → IsValid c
    → Ensures (Keeps c) (update_my_interested_status env c)
status-Keeps env c v = Ensures-weaken (update_my_interested_status-Keeps env c v) λ c' (k, _). k

-- `update_my_interested_status` and then `request_more_blocks`.
status_and_more-Keeps :
    (env : Env) (c : PeerConnection)
    → IsValid c
    → Ensures (Keeps c) (do c_1 ← update_my_interested_status env c; request_more_blocks env c_1)
status_and_more-Keeps env c v =
    then_Keeps (request_more_blocks env) (status-Keeps env c v) (request_more_blocks-Keeps env)

-- The connection once it has heard what arrived: its view is `hear` of the view before.
abbrev pub after : Ipc → PeerConnection → PeerConnection
after i c = record c {
  me = record c.me { is_choked = choked_after i c.me.is_choked };
  he = record c.he { is_interested = interest_after i c.he.is_interested };
  upload_in_progress = uploading_after i c.upload_in_progress;
}

process_message-Keeps :
    (env : Env) (m : Message) (c : PeerConnection)
    → IsValid c
    → Ensures (Keeps (after (message m) c)) (process_message env m c)
unfolding process_message
process_message-Keeps env keep_alive c v = holds (Keeps-refl c v)
process_message-Keeps env choke c v = holds (Keeps-refl (set_me_choked true c) v)
process_message-Keeps env un_choke c v =
    Ensures-if c.me.is_choked (λ _. request_more_blocks-Keeps env (set_me_choked false c) v)
      (λ free. holds (record {
        valid = v;
        acts =
            subst (λ b. Acts (record (view c) { am_choked = b }) (view c)) {x = c.me.is_choked}
              {y = false} free here;
      }))
process_message-Keeps env interested c v =
    Ensures-if c.he.is_choked
      (λ choked.
        then_Keeps (upload_next_block env)
          (Ensures-send_message {P = Keeps (set_he_interested true c)} env
            (set_he_choked false (set_he_interested true c)) un_choke
            (record { valid = v; acts = one (unchoke (view (set_he_interested true c)) choked) }))
          (upload_next_block-Keeps env))
      (λ _. holds (Keeps-refl (set_he_interested true c) v))
process_message-Keeps env not_interested c v = holds (Keeps-refl (set_he_interested false c) v)
process_message-Keeps env (have i) c v =
    then_Keeps _
      (Ensures-if {P = Keeps c} (ltb i (length c.he.has_pieces))
        (λ _. holds (record { valid = v; acts = here })) (λ _. panicked))
      λ c_1 v_1. then_Keeps _ (queue_blocks-Keeps env i c_1 v_1) (status_and_more-Keeps env)
process_message-Keeps env (bitfield bytes) c v =
    then_Keeps _ (read_bits-Keeps env bytes (length c.he.has_pieces) 0 c v)
      (status_and_more-Keeps env)
process_message-Keeps env (request p o n) c v =
    Ensures-weaken
      (upload_next_block-Keeps env
        (set_his_requests (Queue.add c.he.requests p (o / block_size) o n).0 c)
        (Valid-his v (add-Unique c.he.requests p (o / block_size) o n v.his_requests)))
      λ c' k. record { valid = k.valid; acts = k.acts }
process_message-Keeps env (piece p o block) c v =
    then_Keeps _
      (Ensures-send_download {P = Keeps c} env
        (set_my_requests (Queue.remove c.me.requests p (o / block_size)).0 c)
        (download (piece p o block))
        (record { valid = Valid-answered v p (o / block_size); acts = here }))
      (status_and_more-Keeps env)
process_message-Keeps env (cancel p o _) c v = holds (record {
  valid = Valid-his v (remove-Unique c.he.requests p (o / block_size) v.his_requests);
  acts = here;
})
process_message-Keeps env port c v = failed

send_cancel-Keeps :
    (env : Env) (o : Option RequestMetadata) (c : PeerConnection)
    → IsValid c
    → Ensures (Keeps c) (send_cancel env o c)
unfolding send_cancel
send_cancel-Keeps env none c v = holds (Keeps-refl c v)
send_cancel-Keeps env (some r) c v =
    Ensures-send_message env c (cancel r.piece_index r.offset r.block_length)
      (record { valid = v; acts = one (withdraw (view c) r.piece_index r.offset r.block_length) })

pub handle_ipc-Keeps :
    (env : Env) (i : Ipc) (c : PeerConnection)
    → IsValid c
    → Ensures (Keeps (after i c)) (handle_ipc env i c)
unfolding handle_ipc cancel_block
handle_ipc-Keeps env (message m) c v = process_message-Keeps env m c v
handle_ipc-Keeps env (block_completed p b) c v =
    Ensures-weaken
      (send_cancel-Keeps env (Queue.remove c.me.requests p b).1 _
        (Valid-answered (Valid-dropped v p b) p b))
      λ c' k. record { valid = k.valid; acts = k.acts }
handle_ipc-Keeps env (piece_completed p) c v =
    then_Keeps _
      (Ensures-if {P = Keeps c} (ltb p (length c.me.has_pieces))
        (λ _. holds (record { valid = v; acts = here })) (λ _. panicked))
      λ c_1 v_1. then_Keeps (send_message env (have p)) (status-Keeps env c_1 v_1) λ c_2 v_2.
        Ensures-send_message env c_2 (have p)
          (record { valid = v_2; acts = one (tell_piece (view c_2) p) })
handle_ipc-Keeps env download_completed c v = status-Keeps env c v
handle_ipc-Keeps env block_uploaded c v =
    upload_next_block-Keeps env (record c { upload_in_progress = false }) v
