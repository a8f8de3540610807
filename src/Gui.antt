-- ===== src/Gui.antt =====
-- The tracker GUI (vt_vive_tracker_gui): the part of it that keeps state.
pub mod Store
pub mod Runtime
