-- ===== src/Race/FastTrack.antt =====
-- fasttrack.h: the detector FastTrack.
pub mod Steps
pub mod Run
mod Examples
