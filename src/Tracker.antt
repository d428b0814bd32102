-- ===== src/Tracker.antt =====
-- src/tracker: the announce to a tracker and what its answer says.
pub mod Client
pub mod Announce
