-- ===== src/Race.antt =====
-- cs636/assignment1/241110079: the detectors of data races in a trace of a program's threads.
pub mod Clocks
pub mod Djit
pub mod Seen
pub mod Sync
pub mod Agree
pub mod Kept
pub mod Exact
pub mod FastTrack
mod Examples
