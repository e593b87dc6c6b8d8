-- ===== src/Bloom.antt =====
-- cs636/assignment2/problem3/241110079.h: a Bloom filter with locks.
pub mod Filter
pub mod Membership
pub mod Stats
pub mod Interleave
pub mod Locks
mod Examples
