-- ===== src/OpenTable.antt =====
-- The hash table with open addressing of cs610/assignment5/problem1.
pub mod State
pub mod Operations
pub mod Finds
mod Examples
