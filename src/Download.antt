-- ===== src/Download.antt =====
-- bt/src/base/download.rs: the pieces of a torrent, the files that hold them, and the task that
-- stores and serves blocks.
pub mod Search
pub mod Pieces
pub mod Files
pub mod Store
