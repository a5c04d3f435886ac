-- ===== src/Peer/Refinement.antt =====
-- `peer_conn_loop` of bt/src/peer/peer_connection.rs keeps the invariant and to the protocol.
pub mod Steps
pub mod Start
use rust_torrent_client.Prelude.{
  ℕ, ◌+◌, ◌≤◌, ◌⊎◌, inl, inr, true, ◌≡◌, refl, ap, List, [], ◌∷◌, ◌++◌, arith, if◌then◌else◌,
  Ensures, holds, Ensures-if, Ensures-bind, Ensures-weaken,
}
use rust_torrent_client.Ipc.{Ipc}
use rust_torrent_client.Peer.State.{PeerConnection}
use rust_torrent_client.Peer.Process.{LoopEvent, shutdown, ipcs_closed, ipc, peer_conn_loop}
use rust_torrent_client.Peer.Protocol.{View, view}
use rust_torrent_client.Peer.Protocol.Rules.{
  Trace, start, hears, reported, reported-append_le, Told, Trace-Told, Trace-Uploads, pieces_sent,
  bit,
}
use rust_torrent_client.Peer.Invariant.{IsValid}
use rust_torrent_client.Peer.Refinement.Steps.{handle_ipc-Keeps}

-- The events that the loop hears, until the read loop or the manager is gone.
abbrev pub ipcs : List LoopEvent → List Ipc
ipcs [] = []
ipcs (shutdown ∷ events) = []
ipcs (ipcs_closed ∷ events) = []
ipcs (ipc env i ∷ events) = i ∷ ipcs events

-- The reports of uploads among the events.
abbrev pub reports : List LoopEvent → ℕ
reports events = reported (ipcs events)

-- A valid connection that came from the view `u` by the protocol: it heard the events up to some
-- point, all of them unless it is halted.
pub record Follows (u : View) (events : List Ipc) (c : PeerConnection) : Type 0 where
  pub valid : IsValid c
  pub heard : List Ipc
  pub unheard : List Ipc
  pub order : events ≡ heard ++ unheard
  pub ended : (unheard ≡ []) ⊎ (c.halt ≡ true)
  pub trace : Trace u heard (view c)

pub peer_conn_loop-Follows :
    (events : List LoopEvent) (c : PeerConnection)
    → IsValid c
    → Ensures (Follows (view c) (ipcs events)) (peer_conn_loop events c)
unfolding peer_conn_loop
peer_conn_loop-Follows [] c v =
    holds (record {
      valid = v;
      heard = [];
      unheard = [];
      order = refl;
      ended = inl refl;
      trace = start;
    })
peer_conn_loop-Follows (shutdown ∷ events) c v =
    holds (record {
      valid = v;
      heard = [];
      unheard = [];
      order = refl;
      ended = inl refl;
      trace = start;
    })
peer_conn_loop-Follows (ipcs_closed ∷ events) c v =
    holds (record {
      valid = v;
      heard = [];
      unheard = [];
      order = refl;
      ended = inl refl;
      trace = start;
    })
peer_conn_loop-Follows (ipc env i ∷ events) c v =
    Ensures-if c.halt
      (λ halted. holds (record {
        valid = v;
        heard = [];
        unheard = i ∷ ipcs events;
        order = refl;
        ended = inr halted;
        trace = start;
      }))
      (λ _. Ensures-bind (handle_ipc-Keeps env i c v) λ c_1 k.
        Ensures-weaken (peer_conn_loop-Follows events c_1 k.valid) λ c_2 f. record {
          valid = f.valid;
          heard = i ∷ f.heard;
          unheard = f.unheard;
          order = ap (λ l. i ∷ l) f.order;
          ended = f.ended;
          trace = hears i k.acts f.trace;
        })

-- Of what arrived the loop heard at most all.
pub Follows-reported :
    {u : View} {events : List Ipc} {c : PeerConnection} (f : Follows u events c)
    → reported f.heard ≤ reported events
Follows-reported f = rw f.order (reported-append_le f.heard f.unheard)

-- Whatever events arrive, in whatever order, the loop of a valid connection never runs out of fuel,
-- and if it returns, the connection is valid: no block is requested twice, no requested block waits
-- to be requested, and at most ten requests are out.
pub peer_conn_loop-IsValid :
    (events : List LoopEvent) (c : PeerConnection)
    → IsValid c
    → Ensures IsValid (peer_conn_loop events c)
peer_conn_loop-IsValid events c v =
    Ensures-weaken (peer_conn_loop-Follows events c v) λ c' f. f.valid

-- The loop of a valid connection implements the protocol: it never runs out of fuel, and if it
-- returns, what it sent, and how its flags changed, is a run of the machine of `hear` and `Act` on
-- the events that arrived before the loop was told to end, in their order: on all of them, or, if
-- the connection is halted, on the first of them. What arrives changes the flags of the peer as
-- `hear` says, and after each event only what `Act` allows with these flags is sent.
pub peer_conn_loop-Trace :
    (events : List LoopEvent) (c : PeerConnection)
    → IsValid c
    → Ensures
        (λ c'.
          (heard : List Ipc) × (unheard : List Ipc) × (ipcs events ≡ heard ++ unheard)
          × ((unheard ≡ []) ⊎ (c'.halt ≡ true))
          × Trace (view c) heard (view c'))
        (peer_conn_loop events c)
peer_conn_loop-Trace events c v =
    Ensures-weaken (peer_conn_loop-Follows events c v)
      λ c' f. (f.heard, f.unheard, f.order, f.ended, f.trace)

-- The peer always knows our flags: if it does at the start of the loop of a valid connection, it
-- does if the loop returns. The last `Interested` or `NotInterested` that was sent is our
-- interest, and an `UnChoke` was sent exactly if the peer is not choked.
pub peer_conn_loop-Told :
    (events : List LoopEvent) (c : PeerConnection)
    → IsValid c
    → Told (view c)
    → Ensures (λ c'. Told (view c')) (peer_conn_loop events c)
peer_conn_loop-Told events c v told =
    Ensures-weaken (peer_conn_loop-Follows events c v) λ c' f. Trace-Told f.trace told

-- One block is on its way at a time: if the loop of a valid connection returns, the blocks that it
-- sent are at most the uploads that the write loop reported to it, one less if an upload was in
-- progress at its start, and one more if one is in progress at its end.
pub peer_conn_loop-Uploads :
    (events : List LoopEvent) (c : PeerConnection)
    → IsValid c
    → Ensures
        (λ c'.
          pieces_sent c'.sent + bit c.upload_in_progress
          ≤ pieces_sent c.sent + reports events + bit c'.upload_in_progress)
        (peer_conn_loop events c)
peer_conn_loop-Uploads events c v =
    Ensures-weaken (peer_conn_loop-Follows events c v)
      λ c' f. omega (arith, Follows-reported f, Trace-Uploads f.trace)
