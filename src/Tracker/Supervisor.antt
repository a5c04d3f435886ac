-- ===== src/Tracker/Supervisor.antt =====
-- `TrackerSupervisor` of bt/src/tracker/tracker_supervisor.rs: which trackers are started and when.
pub mod Tries
use rust_torrent_client.Prelude.{
  ℕ, List, [], ◌∷◌, ◌++◌, Option, none, some, Bool, true, false, Bytes, ltb, any, not,
  if◌then◌else◌,
}
use rust_torrent_client.Meta.Urls.{get_urls}
use rust_torrent_client.Manager.{Manager}
use rust_torrent_client.Tracker.Client.{TrackerStatus, found_peers, host_unresolved, error_occurred}

-- What a tracker reports: its url, the instant and the status.
abbrev pub Report : Type 0 → Type 0
Report Url = Url × ℕ × TrackerStatus

-- `spawned` holds the urls for which a task was spawned.
pub record TrackerSupervisor (Url : Type 0) : Type 0 where
  pub urls : List Url
  pub tracker_states : List (Url × ℕ × TrackerStatus)
  pub spawned : List Url

-- `from_manager`. The identity and the port are those of `Tracker` and left out here.
unfoldable pub from_manager :
    {Url : Type 0} → (Bytes → Option Url) → (Url → Url → Bool) → Manager → TrackerSupervisor Url
from_manager parse_url url_eq manager = record {
  urls = get_urls parse_url url_eq manager.meta_info;
  tracker_states = [];
  spawned = [];
}

-- A tracker is active if it found two peers.
unfoldable pub is_active : TrackerStatus → Bool
is_active (found_peers n) = ltb 1 n
is_active host_unresolved = false
is_active (error_occurred e) = false

abbrev pub status_of : {Url : Type 0} → Report Url → TrackerStatus
status_of (url, instant, status) = status

abbrev pub url_of : {Url : Type 0} → Report Url → Url
url_of (url, instant, status) = url

unfoldable pub is_one_active : {Url : Type 0} → TrackerSupervisor Url → Bool
is_one_active s = any (λ state. is_active (status_of state)) s.tracker_states

module _ {Url : Type 0} (url_eq : Url → Url → Bool) where
  -- `HashMap::insert`
  unfoldable pub insert_state : Report Url → List (Report Url) → List (Report Url)
  insert_state report [] = report ∷ []
  insert_state report (state ∷ states) =
      if url_eq (url_of report) (url_of state)
      then report ∷ states
      else state ∷ insert_state report states

  abbrev pub has_state : Url → List (Report Url) → Bool
  has_state url states = any (λ state. url_eq url (url_of state)) states

  unfoldable pub spawn_tracker : Url → TrackerSupervisor Url → TrackerSupervisor Url
  spawn_tracker url s = record s { spawned = s.spawned ++ url ∷ [] }

  -- The loop of `try_another_tracker`.
  unfoldable pub try_urls : List Url → TrackerSupervisor Url → TrackerSupervisor Url
  try_urls [] s = s
  try_urls (url ∷ urls) s =
      if not (has_state url s.tracker_states) then spawn_tracker url s else try_urls urls s

  unfoldable pub try_another_tracker : TrackerSupervisor Url → TrackerSupervisor Url
  try_another_tracker s = try_urls s.urls s

  unfoldable pub insert_report : Report Url → TrackerSupervisor Url → TrackerSupervisor Url
  insert_report report s = record s { tracker_states = insert_state report s.tracker_states }

  -- `wait_on_tracker_msg`, for the reports that arrive.
  unfoldable pub wait_on_tracker_msg :
      List (Report Url) → TrackerSupervisor Url → TrackerSupervisor Url
  wait_on_tracker_msg [] s = s
  wait_on_tracker_msg (report ∷ reports) s =
      let s_1 = insert_report report s in
      wait_on_tracker_msg reports (if not (is_one_active s_1) then try_another_tracker s_1 else s_1)

  -- The first loop of `loop_until_connected`, over what arrives within fifteen seconds after each
  -- tracker is spawned: the urls, and the reports that wait to be inserted.
  unfoldable pub connect_urls : List Url → List (Option (Report Url)) → List Url × List (Report Url)
  connect_urls [] arrivals = ([], [])
  connect_urls (url ∷ urls) (some (u, instant, found_peers n) ∷ arrivals) =
      (url ∷ [], (u, instant, found_peers n) ∷ [])
  connect_urls (url ∷ urls) (some report ∷ arrivals) =
      let (spawned, pending_status) = connect_urls urls arrivals in
      (url ∷ spawned, report ∷ pending_status)
  connect_urls (url ∷ urls) (none ∷ arrivals) =
      let (spawned, pending_status) = connect_urls urls arrivals in (url ∷ spawned, pending_status)
  connect_urls (url ∷ urls) [] =
      let (spawned, pending_status) = connect_urls urls [] in (url ∷ spawned, pending_status)

  unfoldable pub insert_reports : List (Report Url) → TrackerSupervisor Url → TrackerSupervisor Url
  insert_reports [] s = s
  insert_reports (report ∷ reports) s = insert_reports reports (insert_report report s)

  unfoldable pub loop_until_connected :
      List (Option (Report Url)) → TrackerSupervisor Url → TrackerSupervisor Url
  loop_until_connected arrivals s =
      let (spawned, pending_status) = connect_urls s.urls arrivals in
      insert_reports pending_status (record s { spawned = s.spawned ++ spawned })

  -- `run`
  unfoldable pub run :
      List (Option (Report Url)) → List (Report Url) → TrackerSupervisor Url → TrackerSupervisor Url
  run arrivals reports s = wait_on_tracker_msg reports (loop_until_connected arrivals s)
