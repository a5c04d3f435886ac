-- ===== src/Tracker/Client/Rounds.antt =====
-- What the task of bt/src/tracker/tracker.rs does for each answer of its tracker.
use rust_torrent_client.Prelude.{
  ℕ, ◌≡◌, refl, List, [], ◌∷◌, ◌++◌, Option, none, some, Bool, true, false, Bytes, length, ok, err,
}
use rust_torrent_client.Peer.Handshake.{bytes_eq}
use rust_torrent_client.Bencode.Decode.{DecodeError}
use rust_torrent_client.Meta.{info_hash, total_length}
use rust_torrent_client.Tracker.Response.{TrackerResponse, parse_response}
use rust_torrent_client.Tracker.Client.{
  Tracker, TrackerError, invalid_input, found_peers, host_unresolved, error_occurred, Receivers,
  send_to_supervisor, send_to_manager, resolve_arm, http, request_url, get_tracker_response_surf,
  http_announce, try_announce, resolve_and_start, start,
}

-- The answers of a tracker: a response, none, and bytes that are no response.
pub data Reply : Type 0 where
  responds : TrackerResponse → Reply
  silent : Reply
  malformed : Reply

-- What a round does.
abbrev pub after : Reply → Tracker → Tracker
after (responds res) t = record t {
  interval = res.interval;
  to_supervisor = t.to_supervisor ++ found_peers (length res.peers) ∷ [];
  to_manager = t.to_manager ++ res.peers ∷ [];
}
after silent t = record t { to_supervisor = t.to_supervisor ++ host_unresolved ∷ [] }
after malformed t = record t {
  to_supervisor = t.to_supervisor ++ error_occurred invalid_input ∷ [];
}

abbrev nap : Tracker → Tracker
nap t = record t { slept = t.slept ++ t.interval ∷ [] }

unfoldable pub play : List Reply → Tracker → Tracker × Bool
play [] t = (t, true)
play (responds res ∷ replies) t = play replies (nap (after (responds res) t))
play (silent ∷ replies) t = play replies (nap (after silent t))
play (malformed ∷ replies) t = (after malformed t, false)

module _ (calculate_sha1 percent_encode : Bytes → Bytes) where
  abbrev url_of : Tracker → ℕ → Bytes
  url_of t len =
      request_url calculate_sha1 percent_encode t.peer_id t.url len
        (info_hash calculate_sha1 t.metadata) t.listener_port

  -- What the request got is the reply.
  abbrev pub IsReply : Option Bytes → Reply → Type 0
  IsReply none silent = Unit
  IsReply (some buf) (responds res) = parse_response buf ≡ ok res
  IsReply (some buf) malformed = (e : DecodeError) × (parse_response buf ≡ err e)
  IsReply _ _ = ⊥

  -- The replies that a tracker of these urls gets, with both receivers there.
  abbrev pub Replies : Bytes → List ((Bytes → Option Bytes) × Receivers) → List Reply → Type 0
  Replies url [] [] = Unit
  Replies url ((get, r) ∷ rounds) (reply ∷ replies) =
      IsReply (get url) reply
      × (r.supervisor_open ≡ true)
      × (r.manager_open ≡ true)
      × Replies url rounds replies
  Replies _ _ _ = ⊥

  abbrev error_of : Reply → Option TrackerError
  error_of malformed = some invalid_input
  error_of _ = none

  answered-IsReply :
      (get : Bytes → Option Bytes) (t : Tracker) (len : ℕ) (o : Option Bytes) (reply : Reply)
      → get (url_of t len) ≡ o
      → IsReply o reply
      → bytes_eq t.scheme http ≡ true
      → total_length t.metadata.info ≡ ok len
      → (r : Receivers) → r.supervisor_open ≡ true
      → r.manager_open ≡ true
      → resolve_and_start calculate_sha1 percent_encode get r t ≡ ok (after reply t, error_of reply)
  unfolding resolve_and_start resolve_arm try_announce http_announce get_tracker_response_surf
      send_to_supervisor send_to_manager
  answered-IsReply get t len none silent e h scheme total r s m = rw (scheme, total, e, s)
  answered-IsReply get t len (some buf) (responds res) e h scheme total r s m =
      rw (scheme, total, e, h, s, m)
  answered-IsReply get t len (some buf) malformed e h scheme total r s m =
      rw (scheme, total, e, h.1, s)
  answered-IsReply get t len none (responds res) e h scheme total r s m = absurd h
  answered-IsReply get t len none malformed e h scheme total r s m = absurd h
  answered-IsReply get t len (some buf) silent e h scheme total r s m = absurd h

  -- Against a tracker that is reached by http, for a torrent whose length fits a `u64`, and as long
  -- as the supervisor and the manager receive, the task does for each reply what `after` says: a
  -- response sets the interval, its number of peers is reported to the supervisor and its peers are
  -- sent to the manager; no answer is reported as an unresolved host; then the task sleeps for the
  -- interval and goes on. It reports bytes that are no response as an error and stops for good.
  pub start-play :
      (rounds : List ((Bytes → Option Bytes) × Receivers)) (replies : List Reply) (t : Tracker)
      (len : ℕ)
      → bytes_eq t.scheme http ≡ true
      → total_length t.metadata.info ≡ ok len
      → Replies (url_of t len) rounds replies
      → start calculate_sha1 percent_encode rounds t ≡ ok (play replies t)
  unfolding start play
  start-play [] [] t len scheme total h = refl
  start-play [] (reply ∷ replies) t len scheme total h = absurd h
  start-play (round ∷ rounds) [] t len scheme total h = absurd h
  start-play ((get, r) ∷ rounds) (responds res ∷ replies) t len scheme total h =
      rw
        (answered-IsReply get t len (get (url_of t len)) (responds res) refl h.0 scheme total r h.1
          h.2)
        (start-play rounds replies (nap (after (responds res) t)) len scheme total h.3)
  start-play ((get, r) ∷ rounds) (silent ∷ replies) t len scheme total h =
      rw (answered-IsReply get t len (get (url_of t len)) silent refl h.0 scheme total r h.1 h.2)
        (start-play rounds replies (nap (after silent t)) len scheme total h.3)
  start-play ((get, r) ∷ rounds) (malformed ∷ replies) t len scheme total h =
      rw (answered-IsReply get t len (get (url_of t len)) malformed refl h.0 scheme total r h.1 h.2)
