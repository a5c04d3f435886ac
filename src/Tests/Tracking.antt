-- ===== src/Tests/Tracking.antt =====
-- The clients of the trackers, bt/src/tracker, at concrete inputs.
use rust_torrent_client.Prelude.{
  ℕ, ◌≡◌, refl, List, [], ◌∷◌, ◌++◌, some, none, true, Bytes, ok, err, panic, ◌==◌, ==_iff, arith,
}
use rust_torrent_client.Peer.Handshake.{bytes_eq}
use rust_torrent_client.Bencode.Decimal.{parse_usize, parse_i64, parse_digits}
use rust_torrent_client.Bencode.Utf8
use rust_torrent_client.Bencode.Utf8.{is_utf8}
use rust_torrent_client.Bencode.Encode.{insert, insert_at, compare_bytes, then_compare}
use rust_torrent_client.Bencode.Decode.{
  eof, decode, decode_arm, peek_byte, expect, read_dict, read_entries, read_list, read_items,
  read_str, read_byte_string, read_integer, read_number, read_while_number, malformed,
}
use rust_torrent_client.Bencode.Fields.{
  get_value, get_field, get_option_field, lookup, vec_from_value, items_from_values,
  unsigned_from_value,
}
use rust_torrent_client.Meta.{total_length}
use rust_torrent_client.Tracker.Response.{
  TrackerResponse, compact_peers, parse_response, response_from_value, peers_from_value,
}
use rust_torrent_client.Tracker.Response.Compact.{Reads, compact_peers-Reads}
use rust_torrent_client.Tracker.Client.{
  Tracker, found_peers, host_unresolved, Receivers, start, http,
}
use rust_torrent_client.Tracker.Client.Rounds.{Reply, responds, silent, play, start-play}
use rust_torrent_client.Tracker.Supervisor.{
  TrackerSupervisor, Report, from_manager, is_active, is_one_active, insert_state,
  wait_on_tracker_msg, connect_urls, loop_until_connected, insert_reports, insert_report,
  try_another_tracker, try_urls, spawn_tracker,
}
use rust_torrent_client.Tracker.Supervisor.Tries.{wait_on_tracker_msg-spawned}
use rust_torrent_client.Tracker.Shuffle.{
  swap, swap_from, swap_to_head, shuffle_from, knuth_shuffle, shuffle_announce_list,
}
use rust_torrent_client.Meta.Urls.{get_urls, parsed, parsed_lists}
use rust_torrent_client.Tests.Managing.{idle}
use rust_torrent_client.Tests.Metadata.{sample}

-- 127.0.0.1:6881 and one byte of another peer.
compact_peers-Reads_example :
    Reads
      (127 ∷ 0 ∷ 0 ∷ 1 ∷ 26 ∷ 225 ∷ 200 ∷ [])
      (compact_peers (127 ∷ 0 ∷ 0 ∷ 1 ∷ 26 ∷ 225 ∷ 200 ∷ []))
compact_peers-Reads_example = compact_peers-Reads (127 ∷ 0 ∷ 0 ∷ 1 ∷ 26 ∷ 225 ∷ 200 ∷ []) (
  omega arith,
  (omega arith, (omega arith, (omega arith, (omega arith, (omega arith, (omega arith, tt)))))),
)

abbrev client : Tracker
client = record {
  metadata = sample;
  peer_id = 45 ∷ [];
  scheme = http;
  url = 104 ∷ [];
  interval = 120;
  listener_port = 54_654;
  to_supervisor = [];
  to_manager = [];
  slept = [];
}

abbrev both : Receivers
both = record { supervisor_open = true; manager_open = true }

-- d8:completei1e10:incompletei2e8:intervali60e5:peerslee
abbrev body : Bytes
body =
    100 ∷ 56 ∷ 58 ∷ 99 ∷ 111 ∷ 109 ∷ 112 ∷ 108 ∷ 101 ∷ 116 ∷ 101 ∷ 105 ∷ 49 ∷ 101 ∷ 49 ∷ 48 ∷ 58
    ∷ 105 ∷ 110 ∷ 99 ∷ 111 ∷ 109 ∷ 112 ∷ 108 ∷ 101 ∷ 116 ∷ 101 ∷ 105 ∷ 50 ∷ 101 ∷ 56 ∷ 58 ∷ 105
    ∷ 110 ∷ 116 ∷ 101 ∷ 114 ∷ 118 ∷ 97 ∷ 108 ∷ 105 ∷ 54 ∷ 48 ∷ 101 ∷ 53 ∷ 58 ∷ 112 ∷ 101 ∷ 101 ∷ 114
    ∷ 115 ∷ 108 ∷ 101 ∷ 101 ∷ []

abbrev response : TrackerResponse
response = record { interval = 60; min_interval = none; complete = 1; incomplete = 2; peers = [] }

body_parsed : parse_response body ≡ ok response
unfolding parse_response decode decode_arm peek_byte expect read_dict read_entries read_list
    read_items read_str read_byte_string read_integer read_number read_while_number malformed
    parse_usize parse_i64 parse_digits is_utf8 Utf8.run Utf8.next_byte Utf8.first_byte insert
    insert_at compare_bytes then_compare response_from_value get_value get_field get_option_field
    lookup bytes_eq peers_from_value vec_from_value items_from_values unsigned_from_value
body_parsed = refl

http_is : bytes_eq http http ≡ true
unfolding bytes_eq
http_is = refl

sample_length : total_length sample.info ≡ ok 5
unfolding total_length
sample_length = refl

empty_body : parse_response [] ≡ err eof
unfolding parse_response decode peek_byte
empty_body = refl

start-play_example :
    start
      (λ input. [])
      (λ input. [])
      ((λ url. some body, both) ∷ (λ url. none, both) ∷ (λ url. some [], both) ∷ [])
      client
    ≡ ok (play (responds response ∷ silent ∷ Reply.malformed ∷ []) client)
start-play_example =
    start-play (λ input. []) (λ input. [])
      ((λ url. some body, both) ∷ (λ url. none, both) ∷ (λ url. some [], both) ∷ [])
      (responds response ∷ silent ∷ Reply.malformed ∷ []) client 5 http_is sample_length
      (body_parsed, refl, refl, (tt, refl, refl, ((eof, empty_body), refl, refl, tt)))

-- Of three trackers the first has reported; the others report in turn.
abbrev waiting : TrackerSupervisor ℕ
waiting = record {
  urls = 1 ∷ 2 ∷ 3 ∷ [];
  tracker_states = (1, 0, host_unresolved) ∷ [];
  spawned = 1 ∷ 2 ∷ [];
}

abbrev later : List (Report ℕ)
later = (2, 5, found_peers 1) ∷ (3, 9, host_unresolved) ∷ []

wait_on_tracker_msg-spawned_example :
    (wait_on_tracker_msg ◌==◌ later waiting).spawned ≡ waiting.spawned ++ 3 ∷ []
unfolding is_active is_one_active
wait_on_tracker_msg-spawned_example =
    wait_on_tracker_msg-spawned ◌==◌ ==_iff (3 ∷ []) (1 ∷ []) 2 later waiting refl
      (refl, (refl, (refl, tt))) (λ url. refl) refl (refl, refl, (refl, refl, tt))

-- A tracker that was started and is silent is started again when another one reports.
started_twice :
    (wait_on_tracker_msg ◌==◌
      ((1, 0, host_unresolved) ∷ (1, 5, host_unresolved) ∷ [])
      (record { urls = 1 ∷ 2 ∷ []; tracker_states = []; spawned = 1 ∷ [] })).spawned
    ≡ 1 ∷ 2 ∷ 2 ∷ []
unfolding wait_on_tracker_msg insert_report insert_state is_one_active is_active try_another_tracker
    try_urls spawn_tracker
started_twice = refl

-- The url of `announce` comes after those of the list.
manager_urls : (from_manager some bytes_eq idle).urls ≡ (99 ∷ []) ∷ (98 ∷ []) ∷ []
unfolding from_manager get_urls parsed parsed_lists bytes_eq
manager_urls = refl

-- The first tracker is silent, the second finds peers, and the third is not started.
connected :
    loop_until_connected ◌==◌
      (none ∷ some (2, 5, found_peers 9) ∷ [])
      (record { urls = 1 ∷ 2 ∷ 3 ∷ []; tracker_states = []; spawned = [] })
    ≡ record {
      urls = 1 ∷ 2 ∷ 3 ∷ [];
      tracker_states = (2, 5, found_peers 9) ∷ [];
      spawned = 1 ∷ 2 ∷ [];
    }
unfolding loop_until_connected connect_urls insert_reports insert_report insert_state
connected = refl

-- A tier of no urls panics, and of two urls the order is always turned.
shuffled_empty : shuffle_announce_list {A = ℕ} (λ n k. 0) 0 ([] ∷ []) ≡ panic
unfolding shuffle_announce_list knuth_shuffle
shuffled_empty = refl

shuffled_two : knuth_shuffle {A = ℕ} (λ n k. n) 0 (7 ∷ 8 ∷ []) ≡ ok (8 ∷ 7 ∷ [])
unfolding knuth_shuffle shuffle_from swap
shuffled_two = refl

swap_to_head_test : swap_to_head {A = ℕ} (1 ∷ 2 ∷ 3 ∷ 4 ∷ []) 2 ≡ ok (3 ∷ 1 ∷ 2 ∷ 4 ∷ [])
unfolding swap_to_head swap_from swap
swap_to_head_test = refl
