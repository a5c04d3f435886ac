-- ===== src/Lib.antt =====
-- A BitTorrent client in Rust: models of its components, translated from the source, and theorems
-- about them.
--
-- The program is a set of tasks that send one another messages. One task per peer
-- (bt/src/peer/peer_connection.rs) speaks the peer protocol: a read loop cuts the stream into
-- messages (bt/src/base/ipc.rs), a write loop writes them, and the loop in between keeps the flags,
-- the queues of requests and the blocks to ask for. The download task (bt/src/base/download.rs)
-- stores the blocks in the files of the torrent, checks the pieces and answers the peers' tasks. The
-- manager (bt/src/base/manager.rs) starts the tasks of the peers, thirty at most, and passes messages
-- on to them. The peers come from the trackers: a supervisor (bt/src/tracker/tracker_supervisor.rs)
-- starts a task for each tracker (bt/src/tracker/tracker.rs), which asks again and again. The
-- metadata of a torrent (bt/src/base/meta_info.rs) is in bencode (bt/src/bencode), as are the answers
-- of the trackers.
--
-- The files:
--   Prelude        lists, Boolean tests and the outcome of a Rust function, with the rules that
--                  compose statements about do blocks: `Returns` (it returns, and the value
--                  satisfies a predicate), `Runs` (or it fails with an error), `Ensures` (or it
--                  panics; it never runs out of fuel)
--   Stream         the errors of the tasks, and `read_n`
--   Ipc            bt/src/base/ipc.rs: `Message`, `Message::new`, `Message::serialize`; Ipc/Words has
--                  `bytes_to_u32` and `u32_to_bytes`, Ipc/Frames `conn_read_loop` and
--                  `conn_write_loop`, Ipc/RoundTrip and Ipc/Panics the theorems
--   Events         `ManagerEvent` of bt/src/base/manager.rs
--   Peer           bt/src/peer/peer_connection.rs: Queue (`RequestQueue`), ToRequest (the hash map of
--                  blocks to ask for), State (`PeerConnection`), Actions (its methods), Bits
--                  (bitfields), Handshake, and Process (`process_message`, `peer_conn_loop`);
--                  Protocol is what a connection promises, as a machine that hears the events, Invariant what holds between
--                  two events, Refinement that the code does no more than the machine allows
--   Download       bt/src/base/download.rs: Search (the offsets of
--                  `create_files`, `search_index`, `search_ptrs`), Pieces (`Piece`,
--                  `create_pieces`), Files (`store_block`, `read`), Store (`Download`,
--                  `download_loop`)
--   Bencode        bt/src/bencode: Decimal, Utf8, Encode (`Value`, `encode`), Decode (`Decoder`,
--                  `Value::decode`), Skip (`skip_item`), Struct (`read_struct`, `read_field`), Hash
--                  (`sha1_list`), Fields (`get_field`, `FromValue`, `IntoValue`)
--   Meta           bt/src/base/meta_info.rs: `TorrentMetaInfo` from and to a `Value`; Files has
--                  `create_file_infos` of bt/src/base/download.rs, Urls `get_urls`, RoundTrip and
--                  Parse that what is written is read, Same and Inverse that what was read is
--                  written, InfoHash what that means for the info hash
--   Manager        bt/src/base/manager.rs: `Manager`, `process_event`, `connect`, `manager_loop`;
--                  Peers has the map and the queue, Broadcasts the replacement of peers that are gone,
--                  Valid what every round keeps, System the manager among the tasks that send to it
--   Tracker        bt/src/tracker: Response (`TrackerResponse`, `Peer::from_bytes`), Client (`Tracker`),
--                  Supervisor (`TrackerSupervisor`), Shuffle (`knuth_shuffle`, `swap_to_head`)
--   Tests          runs of the models, and the theorems at concrete inputs
--
-- How the code is modelled. A method that changes `self` is a function from state to outcome; what it
-- sends is appended to a list in the state. Arithmetic is that of a debug build, which the README
-- runs: an addition or multiplication that does not fit its word, and a subtraction below zero, is a
-- panic, as are an index out of bounds and an `unwrap` on nothing; casts wrap around. In `store` and
-- `read`, sums of positions in a buffer are bounded by its length and are not checked. Lengths that
-- the code computes in `f64` are exact below 2 ^ 53. A string is its bytes.
--
-- Parameters stand for what is not in the repository: the file system (`FileSystem`, with the
-- documented behaviour of files in `Laws`, which leaves open how many bytes a read gives), the hash function, the parser and the encoding of urls,
-- what a request over HTTP gets, the random numbers, and what the other tasks do (`Env`), which are
-- arbitrary. A hash map is a list in the order in which it is gone through; the theorems hold for
-- every order. What is printed is left out, and with it the error of a closed
-- print queue; a task that asked a question is taken to wait for the answer.
--
-- Fuel. The `while` loops of `request_more_blocks`, `search_index`, `search_ptrs`, `sha1_list` and of
-- the decoder, and `chunks`, run on fuel: the number of blocks that wait, the number of offsets, or
-- the number of bytes, and one more. The theorems say that this is enough. The loops over events are recursion on
-- the list of the events that arrive.
--
-- Not modelled: the terminal, the start of the program and of its tasks, the opening of files and the
-- making of directories in `create_files`, and code that nothing in the program calls: announce_loop
-- and announce_list_loop of the supervisor, udp_announce of the tracker, read_last_field of the
-- decoder, and the instances of DecodeTo for `Info` and `TorrentMetaInfo`, by which only tests decode.
-- Of these, read_last_field and the instance for `Info` go on after an error of a part that they
-- read, at whatever place it left the stream, which the models of these parts do not tell.
-- bt/src/tracker/udp.rs is commented out.
pub mod Prelude
pub mod Stream
pub mod Ipc
pub mod Peer
pub mod Events
pub mod Download
pub mod Bencode
pub mod Meta
pub mod Manager
pub mod Tracker
pub mod Tests
