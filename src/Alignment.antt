-- ===== src/Alignment.antt =====
-- The offline alignment of recorded streams (tools/multisensor_alignment).
pub mod ClockAudit
pub mod Matcher
pub mod Matching
pub mod Interpolation
