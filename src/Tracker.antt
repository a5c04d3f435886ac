-- ===== src/Tracker.antt =====
-- The clients of the trackers, bt/src/tracker: the answer of a tracker, the task that announces to
-- one, and the supervisor that starts these tasks.
pub mod Response
pub mod Client
pub mod Supervisor
pub mod Shuffle
