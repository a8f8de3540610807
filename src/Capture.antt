-- ===== src/Capture.antt =====
-- The capture side of the recorder package (vt_realsense_capture).
pub mod Session
pub mod Facts
pub mod Controller
pub mod Recorder
