-- ===== src/Peer/Refinement/Start.antt =====
-- A whole connection, from the handshake on (`peer_conn_loop` of
-- bt/src/peer/peer_connection.rs).
use rust_torrent_client.Prelude.{
  ℕ, ◌+◌, ◌≤◌, ◌≡◌, refl, ap, List, Bool, false, Bytes, length, arith, Ensures, holds, failed,
  Ensures-bind, Ensures-if, Ensures-weaken, Ensures-or_panic, get_elem?, ltb, not,
}
use rust_torrent_client.Stream.{read_n}
use rust_torrent_client.Ipc.{bitfield}
use rust_torrent_client.Peer.Queue.{len, has}
use rust_torrent_client.Peer.ToRequest.{contains_key}
use rust_torrent_client.Peer.State.{PeerConnection, Env}
use rust_torrent_client.Peer.Bits.{send_bitfield, bitfield_bytes}
use rust_torrent_client.Peer.Handshake.{bytes_eq, receive_handshake}
use rust_torrent_client.Peer.Process.{LoopEvent, connection, run_peer}
use rust_torrent_client.Peer.Protocol.{view}
use rust_torrent_client.Peer.Protocol.Rules.{Told, Trace-Told, Trace-Uploads, bit, pieces_sent}
use rust_torrent_client.Peer.Invariant.{IsValid}
use rust_torrent_client.Peer.Invariant.Requests.{Ensures-send_message}
use rust_torrent_client.Peer.Refinement.{reports, Follows-reported, peer_conn_loop-Follows}

pub connection-IsValid :
    (our_peer_id info_hash : Bytes) (have_pieces : List Bool)
    → IsValid (connection our_peer_id info_hash have_pieces)
unfolding contains_key len has
connection-IsValid our_peer_id info_hash have_pieces = record {
  my_requests = tt;
  his_requests = tt;
  keys = tt;
  apart = λ p b h. cc;
  window = omega arith;
}

-- A connection that has sent at most its bitfield.
record Fresh (c : PeerConnection) : Type 0 where
  valid : IsValid c
  told : Told (view c)
  idle : c.upload_in_progress ≡ false
  quiet : pieces_sent c.sent ≡ 0

send_bitfield-Fresh :
    (env : Env) (our_peer_id info_hash : Bytes) (have_pieces : List Bool)
    → Ensures Fresh (send_bitfield env (connection our_peer_id info_hash have_pieces))
unfolding send_bitfield
send_bitfield-Fresh env our_peer_id info_hash have_pieces =
    Ensures-bind (Ensures-or_panic {P = λ _. Unit {0}} (bitfield_bytes have_pieces) λ _ _. tt)
      λ bytes _.
        Ensures-send_message env (connection our_peer_id info_hash have_pieces) (bitfield bytes)
          (record {
            valid = connection-IsValid our_peer_id info_hash have_pieces;
            told = record { interest = refl; choked = refl };
            idle = refl;
            quiet = refl;
          })

read_n-Ensures : (stream : Bytes) (n : ℕ) → Ensures (λ _. Unit {0}) (read_n stream n)
unfolding read_n
read_n-Ensures stream n = Ensures-if (ltb (length stream) n) (λ _. failed) (λ _. holds tt)

receive_handshake-Ensures :
    (info_hash our_peer_id stream : Bytes)
    → Ensures (λ _. Unit {0}) (receive_handshake info_hash our_peer_id stream)
unfolding receive_handshake
receive_handshake-Ensures info_hash our_peer_id stream =
    Ensures-bind (read_n-Ensures stream 1) λ (size, s₁) _.
      Ensures-bind (Ensures-or_panic {P = λ _. Unit {0}} (get_elem? size 0) λ _ _. tt) λ n _.
        Ensures-bind (read_n-Ensures s₁ n) λ (_, s₂) _.
          Ensures-bind (read_n-Ensures s₂ 8) λ (_, s₃) _.
            Ensures-bind (read_n-Ensures s₃ 20) λ (hash, s₄) _.
              Ensures-bind (read_n-Ensures s₄ 20) λ (id, s₅) _.
                Ensures-if (not (bytes_eq hash info_hash)) (λ _. failed)
                  λ _. Ensures-if (bytes_eq id our_peer_id) (λ _. failed) λ _. holds tt

-- A connection that ends without an error, whatever the peer sent and whatever events came, is
-- valid; the peer knows its flags; and no more blocks were sent than uploads were reported, but one
-- while an upload is in progress. Its loops never run out of fuel.
pub run_peer-IsSafe :
    (env : Env) (our_peer_id info_hash : Bytes) (have_pieces : List Bool) (stream : Bytes)
    (events : List LoopEvent)
    → Ensures
        (λ c.
          IsValid c
          × Told (view c)
          × (pieces_sent c.sent ≤ reports events + bit c.upload_in_progress))
        (run_peer env our_peer_id info_hash have_pieces stream events)
unfolding run_peer
run_peer-IsSafe env our_peer_id info_hash have_pieces stream events =
    Ensures-bind (receive_handshake-Ensures info_hash our_peer_id stream) λ _ _.
      Ensures-bind (send_bitfield-Fresh env our_peer_id info_hash have_pieces) λ c fresh.
        Ensures-weaken (peer_conn_loop-Follows events c fresh.valid) λ c' f. (
          f.valid,
          Trace-Told f.trace fresh.told,
          omega (arith, Follows-reported f, Trace-Uploads f.trace, fresh.quiet, ap bit fresh.idle),
        )
