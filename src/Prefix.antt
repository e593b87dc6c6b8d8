-- ===== src/Prefix.antt =====
-- The prefix sums of cs610/assignment3/problem2/problem2.cpp.
pub mod Reference
pub mod Vectors
pub mod Sse
pub mod Avx
mod Examples
