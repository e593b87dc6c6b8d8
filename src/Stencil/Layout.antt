-- ===== src/Stencil/Layout.antt =====
-- The cells of `allocate_3d_array` in its data.
use mtech.Prelude.{ℕ, ◌+◌, ◌*◌, ◌<◌, ◌≡◌}
use mtech.Prelude.Digits.{digits-lt, digits_inj}
use mtech.Stencil.Cube.{offset, allocated}

-- Every cell of the padded block stands within the data, and cells that stand at the same float are
-- the same cell.
pub offset-allocated :
    (nx ny nz x y z : ℕ)
    → x < nx + 2
    → y < ny + 2
    → z < nz + 2
    → (offset ny nz x y z < allocated nx ny nz)
      × ((x' y' z' : ℕ)
          → y' < ny + 2
          → z' < nz + 2
          → offset ny nz x y z ≡ offset ny nz x' y' z'
          → (x ≡ x') × (y ≡ y') × (z ≡ z'))
unfolding offset allocated
offset-allocated nx ny nz x y z hx hy hz = (
  digits-lt (nz + 2) (x * (ny + 2) + y) z hz ((nx + 2) * (ny + 2))
      (digits-lt (ny + 2) x y hy (nx + 2) hx),
  (λ x' y' z' hy' hz' e.
      let (row, ez) = digits_inj (nz + 2) (x * (ny + 2) + y) z hz (x' * (ny + 2) + y') z' hz' e in
      let (ex, ey) = digits_inj (ny + 2) x y hy x' y' hy' row in (ex, ey, ez)),
)
