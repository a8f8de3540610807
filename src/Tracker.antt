-- ===== src/Tracker.antt =====
-- The tracker side (vt_vive_tracker).
pub mod Health
pub mod Queue
pub mod Visualization
pub mod Samples
pub mod Roles
pub mod PoseSource
