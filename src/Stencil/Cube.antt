-- ===== src/Stencil/Cube.antt =====
-- The data of a process: the three-dimensional array with a layer of ghost cells, as
-- `allocate_3d_array` lays it out, and the flat buffers.
use mtech.Prelude.{ℕ, ◌+◌, ◌-◌, ◌*◌, ◌&&◌, ◌==◌, if◌then◌else◌}

-- `local_data[x][y][z]`
abbrev pub Cube : Type 0 → Type 0
Cube R = ℕ → ℕ → ℕ → R

abbrev pub Buffer : Type 0 → Type 0
Buffer R = ℕ → R

-- Where `array[x][y][z]` stands in `data`, for a block of `ny` by `nz` points in the last two axes.
unfoldable pub offset : ℕ → ℕ → ℕ → ℕ → ℕ → ℕ
offset ny nz x y z = (x * (ny + 2) + y) * (nz + 2) + z

-- The floats that `calloc` gives.
unfoldable pub allocated : ℕ → ℕ → ℕ → ℕ
allocated nx ny nz = (nx + 2) * (ny + 2) * (nz + 2)

-- `local_data[x][y][z] = v`
abbrev pub set_cell : {R : Type 0} → ℕ → ℕ → ℕ → R → Cube R → Cube R
set_cell x y z v c i j k = if x == i && (y == j && z == k) then v else c i j k

-- `(u - 1) * width + (v - 1)`
unfoldable pub flat : ℕ → ℕ → ℕ → ℕ
flat width u v = (u - 1) * width + (v - 1)
