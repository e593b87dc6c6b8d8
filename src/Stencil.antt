-- ===== src/Stencil.antt =====
-- cs633/solution/src.c: the decomposition of a grid over the processes of an MPI program.
pub mod Decomposition
pub mod Place
pub mod Blocks
pub mod Neighbors
pub mod Loops
pub mod Cube
pub mod Layout
pub mod Exchange
pub mod Links
pub mod Faces
pub mod Halo
pub mod Extrema
pub mod Scan
pub mod Edges
pub mod Beside
pub mod Counts
pub mod Global
pub mod Step
pub mod Fill
pub mod Totals
pub mod Best
pub mod Range
pub mod Results
mod Concrete
mod Examples
