-- ===== src/Queue.antt =====
-- The lock-free queue of cs636/assignment2/problem2/241110079.h: `ConcurrentQueue`.
pub mod Word
pub mod State
pub mod Move
pub mod System
pub mod Invariant
pub mod Frame
pub mod Keeps
pub mod Accesses
pub mod Linear
pub mod Walk
pub mod Solo
pub mod Tags
mod Safety
mod Examples
