-- ===== src/HashTable.antt =====
-- The concurrent hash table of cs636/assignment2/problem1/241110079.h.
pub mod State
pub mod Operations
pub mod Chain
pub mod Find
pub mod Effects
pub mod Batches
pub mod Nodes
pub mod Resize
mod Examples
pub mod Destroy
