-- ===== src/Peer.antt =====
-- bt/src/peer/peer_connection.rs: the connection to one peer.
pub mod Queue
pub mod ToRequest
pub mod State
pub mod Actions
pub mod Bits
pub mod Handshake
pub mod Process
pub mod Protocol
pub mod Invariant
pub mod Refinement
