-- ===== src/Tracker/Client.antt =====
-- `Tracker` of bt/src/tracker/tracker.rs: the task that announces to one tracker, again and again.
pub mod Rounds
use rust_torrent_client.Prelude.{
  ℕ, List, [], ◌∷◌, ◌++◌, Option, none, some, Bool, true, false, Bytes, if◌then◌else◌, length,
  Outcome, ok, err, panic, out_of_fuel, ◌>>=◌,
}
use rust_torrent_client.Peer.Handshake.{bytes_eq}
use rust_torrent_client.Events.{Peer}
use rust_torrent_client.Bencode.Decimal.{print}
use rust_torrent_client.Bencode.Decode.{DecodeError}
use rust_torrent_client.Meta.{TorrentMetaInfo, total_length, info_hash}
use rust_torrent_client.Tracker.Response.{TrackerResponse, parse_response}

pub data TrackerError : Type 0 where
  unresponsive unsupported_scheme invalid_input send_failed : TrackerError

-- `TrackerStatus`
pub data TrackerStatus : Type 0 where
  found_peers : ℕ → TrackerStatus
  host_unresolved : TrackerStatus
  error_occurred : TrackerError → TrackerStatus

-- The url is its scheme and its text. `to_supervisor`, `to_manager` and `slept` hold what was
-- sent, the instants left out, and the seconds that the task slept.
pub record Tracker : Type 0 where
  pub metadata : TorrentMetaInfo
  pub peer_id : Bytes
  pub scheme : Bytes
  pub url : Bytes
  pub interval : ℕ
  pub listener_port : ℕ
  pub to_supervisor : List TrackerStatus
  pub to_manager : List (List Peer)
  pub slept : List ℕ

-- `Tracker::new`
unfoldable pub new : TorrentMetaInfo → Bytes → Bytes → Bytes → ℕ → Tracker
new metadata peer_id scheme url listener_port = record {
  metadata = metadata;
  peer_id = peer_id;
  scheme = scheme;
  url = url;
  interval = 120;
  listener_port = listener_port;
  to_supervisor = [];
  to_manager = [];
  slept = [];
}

-- `join("&")` of the parameters, each with its key.
unfoldable pub encode_query_params : List (Bytes × Bytes) → Bytes
encode_query_params [] = []
encode_query_params ((k, v) ∷ []) = k ++ (61 ∷ v)
encode_query_params ((k, v) ∷ param ∷ params) =
    k ++ (61 ∷ v) ++ (38 ∷ encode_query_params (param ∷ params))

-- "left", "info_hash", "downloaded", "uploaded", "event", "started", "peer_id", "compact" and
-- "port"
abbrev left_param : Bytes
left_param = 108 ∷ 101 ∷ 102 ∷ 116 ∷ []

abbrev info_hash_param : Bytes
info_hash_param = 105 ∷ 110 ∷ 102 ∷ 111 ∷ 95 ∷ 104 ∷ 97 ∷ 115 ∷ 104 ∷ []

abbrev downloaded_param : Bytes
downloaded_param = 100 ∷ 111 ∷ 119 ∷ 110 ∷ 108 ∷ 111 ∷ 97 ∷ 100 ∷ 101 ∷ 100 ∷ []

abbrev uploaded_param : Bytes
uploaded_param = 117 ∷ 112 ∷ 108 ∷ 111 ∷ 97 ∷ 100 ∷ 101 ∷ 100 ∷ []

abbrev event_param : Bytes
event_param = 101 ∷ 118 ∷ 101 ∷ 110 ∷ 116 ∷ []

abbrev started_text : Bytes
started_text = 115 ∷ 116 ∷ 97 ∷ 114 ∷ 116 ∷ 101 ∷ 100 ∷ []

abbrev peer_id_param : Bytes
peer_id_param = 112 ∷ 101 ∷ 101 ∷ 114 ∷ 95 ∷ 105 ∷ 100 ∷ []

abbrev compact_param : Bytes
compact_param = 99 ∷ 111 ∷ 109 ∷ 112 ∷ 97 ∷ 99 ∷ 116 ∷ []

abbrev port_param : Bytes
port_param = 112 ∷ 111 ∷ 114 ∷ 116 ∷ []

-- "http" and "https"
abbrev pub http : Bytes
http = 104 ∷ 116 ∷ 116 ∷ 112 ∷ []

abbrev pub https : Bytes
https = 104 ∷ 116 ∷ 116 ∷ 112 ∷ 115 ∷ []

-- Whether the supervisor and the manager still receive.
pub record Receivers : Type 0 where
  pub supervisor_open : Bool
  pub manager_open : Bool

-- What a task has done and the error that it returns, if it does.
abbrev pub Attempt : Type 0
Attempt = Tracker × Option TrackerError

-- `send_to_supervisor`, with what follows it.
unfoldable pub send_to_supervisor :
    Receivers → TrackerStatus → (Tracker → Attempt) → Tracker → Attempt
send_to_supervisor r msg next t =
    let after = next (record t { to_supervisor = t.to_supervisor ++ msg ∷ [] }) in
    if r.supervisor_open then after else (t, some send_failed)

unfoldable pub send_to_manager : Receivers → List Peer → Tracker → Attempt
send_to_manager r peers t =
    if r.manager_open
    then (record t { to_manager = t.to_manager ++ peers ∷ [] }, none)
    else (t, some send_failed)

-- The arms of `resolve_and_start` on what `try_announce` returned.
unfoldable pub resolve_arm :
    Receivers → Tracker → Outcome TrackerError (List Peer × Tracker) → Outcome TrackerError Attempt
resolve_arm r t (ok (peer_addrs, t_1)) =
    ok (send_to_supervisor r (found_peers (length peer_addrs)) (send_to_manager r peer_addrs) t_1)
resolve_arm r t (err unresponsive) =
    ok (send_to_supervisor r host_unresolved (λ t_1. (t_1, none)) t)
resolve_arm r t (err e) = ok (send_to_supervisor r (error_occurred e) (λ t_1. (t_1, some e)) t)
resolve_arm r t panic = panic
resolve_arm r t out_of_fuel = out_of_fuel

-- The `match` in `start`: whether the loop goes on.
abbrev pub goes_on : Option TrackerError → Bool
goes_on none = true
goes_on (some unresponsive) = true
goes_on (some e) = false

-- The hash function and the encoding of urls are those of other crates.
module _ (calculate_sha1 percent_encode : Bytes → Bytes) where
  -- The url of the request.
  unfoldable pub request_url : Bytes → Bytes → ℕ → Bytes → ℕ → Bytes
  request_url peer_id announce len hash listener_port =
      announce
      ++ (63
          ∷ encode_query_params (
              (left_param, print len)
              ∷ (info_hash_param, percent_encode hash)
              ∷ (downloaded_param, 48 ∷ [])
              ∷ (uploaded_param, 48 ∷ [])
              ∷ (event_param, started_text)
              ∷ (peer_id_param, peer_id)
              ∷ (compact_param, 48 ∷ [])
              ∷ (port_param, print listener_port)
              ∷ []))

  abbrev parsed : Outcome DecodeError TrackerResponse → Outcome TrackerError TrackerResponse
  parsed (ok response) = ok response
  parsed (err e) = err invalid_input
  parsed panic = panic
  parsed out_of_fuel = out_of_fuel

  abbrev answered : Option Bytes → Outcome TrackerError TrackerResponse
  answered none = err unresponsive
  answered (some buf) = parsed (parse_response buf)

  -- `get_tracker_response_surf`; `get` is what the request for a url gets now, if anything.
  unfoldable pub get_tracker_response_surf :
      (Bytes → Option Bytes) → Bytes → Bytes → ℕ → Bytes → ℕ → Outcome TrackerError TrackerResponse
  get_tracker_response_surf get peer_id announce len hash listener_port =
      answered (get (request_url peer_id announce len hash listener_port))

  abbrev number : Outcome DecodeError ℕ → Outcome TrackerError ℕ
  number (ok n) = ok n
  number (err e) = panic
  number panic = panic
  number out_of_fuel = out_of_fuel

  unfoldable pub http_announce :
      (Bytes → Option Bytes) → Tracker → Outcome TrackerError (List Peer × Tracker)
  http_announce get t = do
    len ← number (total_length t.metadata.info)
    res ←
        get_tracker_response_surf get t.peer_id t.url len (info_hash calculate_sha1 t.metadata)
          t.listener_port
    ok (res.peers, record t { interval = res.interval })

  unfoldable pub try_announce :
      (Bytes → Option Bytes) → Tracker → Outcome TrackerError (List Peer × Tracker)
  try_announce get t =
      if bytes_eq t.scheme http
      then http_announce get t
      else if bytes_eq t.scheme https
      then http_announce get t
      else err unsupported_scheme

  unfoldable pub resolve_and_start :
      (Bytes → Option Bytes) → Receivers → Tracker → Outcome TrackerError Attempt
  resolve_and_start get r t = resolve_arm r t (try_announce get t)

  -- `start`, for as many rounds as are given, each with what a request gets and who receives. The
  -- result tells whether the task still runs.
  unfoldable pub start :
      List ((Bytes → Option Bytes) × Receivers) → Tracker → Outcome TrackerError (Tracker × Bool)
  start [] t = ok (t, true)
  start ((get, r) ∷ rounds) t = do
    (t_1, res) ← resolve_and_start get r t
    let rest = start rounds (record t_1 { slept = t_1.slept ++ t_1.interval ∷ [] })
    if goes_on res then rest else ok (t_1, false)
