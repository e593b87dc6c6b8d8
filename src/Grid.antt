-- ===== src/Grid.antt =====
-- cs610/assignment3: the grid search of questions/problem4-v0.c and the faster version of it
-- in problem4/problem4-v0-p1.c.
pub mod Search
mod Examples
