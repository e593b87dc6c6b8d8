-- ===== src/Stencil/Range.antt =====
-- The smallest and the largest value of the whole grid.
use mtech.Prelude.{ℕ, ◌+◌, ◌-◌, ◌<◌, ◌≡◌, ◌∙◌, ◌⊎◌, inl, inr, Bool, false, arith}
use mtech.Stencil.Decomposition.{Params, Decomposition, compute_decomposition, Check, check}
use mtech.Stencil.Place.{check-IsPassed}
use mtech.Stencil.Blocks.{Contains, compute_decomposition-tiles}
use mtech.Stencil.Loops.{Within}
use mtech.Stencil.Cube.{Cube, Buffer}
use mtech.Stencil.Exchange.{x_direction, y_direction, z_direction, Mpi, exchange_boundary_data}
use mtech.Stencil.Edges.{block_inside}
use mtech.Stencil.Halo.{Delivers, HoldsBlock, exchange-HoldsBlock}
use mtech.Stencil.Extrema.{Floats, Found, visit, find_minima_maxima}
use mtech.Stencil.Best.{Orders, better, find_minima_maxima-bound, find_minima_maxima-FromBlock}

-- What MPI documents of MPI_Reduce with MPI_MIN or MPI_MAX: the value of a process that no other is
-- before.
pub record Picks {R : Type 0} (before : R → R → Bool) (reduce : ℕ → (ℕ → R) → R) : Type 0 where
  pub bound : (n : ℕ) (f : ℕ → R) (i : ℕ) → i < n → before (f i) (reduce n f) ≡ false
  pub found : (n : ℕ) (f : ℕ → R) → 0 < n → (i : ℕ) × (i < n) × (reduce n f ≡ f i)

-- No value of the grid is before this one, which is the first one or a value of the grid.
pub record IsBest {R : Type 0} (before : R → R → Bool) (p : Params) (field : Cube R)
    (first value : R) : Type 0 where
  pub bound :
      (gx gy gz : ℕ) → gx < p.nx → gy < p.ny → gz < p.nz → before (field gx gy gz) value ≡ false
  pub found :
      (value ≡ first)
      ⊎ ((gx : ℕ) × (gy : ℕ) × (gz : ℕ) × (gx < p.nx)
          × (gy < p.ny)
          × (gz < p.nz)
          × (value ≡ field gx gy gz))

module _ {R : Type 0} (p : Params) (mpi : Mpi R) (floats : Floats R) (size : ℕ) (blank : Buffer R)
    (passed : check p size ≡ Check.passed) (delivers : Delivers mpi) (field : Cube R)
    (world : ℕ → Cube R)
    (blocks : (r : ℕ) → r < size → HoldsBlock field (compute_decomposition p r) (world r))
    (before : R → R → Bool) (orders : Orders before) (reduce : ℕ → (ℕ → R) → R)
    (picks : Picks before reduce) (best : Found R → R) (start : Found R)
    (step : (d : Decomposition) (c : Cube R) (x y z : ℕ) (found : Found R)
      → best (visit floats d c x y z found) ≡ better before (c x y z) (best found)) where
  abbrev E : ℕ → Cube R
  E = exchange_boundary_data p mpi blank world

  abbrev local_best : ℕ → R
  local_best r = best (find_minima_maxima floats (compute_decomposition p r) (E r) start)

  holds : (r : ℕ) → r < size → HoldsBlock field (compute_decomposition p r) (E r)
  holds = exchange-HoldsBlock p mpi size passed delivers blank field world blocks

  local_bound :
      (r : ℕ)
      → r < size
      → (gx gy gz : ℕ) → Contains (compute_decomposition p r) gx gy gz
      → before (field gx gy gz) (local_best r) ≡ false
  local_bound r inside gx gy gz c =
      let d = compute_decomposition p r in
      let x = gx - d.start_x + 1 in
      let y = gy - d.start_y + 1 in
      let z = gz - d.start_z + 1 in
      let lx = c.from_x in
      let hx = c.to_x in
      let ly = c.from_y in
      let hy = c.to_y in
      let lz = c.from_z in
      let hz = c.to_z in
      let wx : Within d.sub_nx x = omega arith in
      let wy : Within d.sub_ny y = omega arith in
      let wz : Within d.sub_nz z = omega arith in
      let bound =
        find_minima_maxima-bound before orders best floats d (E r) (step d (E r)) start x y z wx wy
          wz in
      let ex : d.start_x + (x - 1) ≡ gx = omega arith in
      let ey : d.start_y + (y - 1) ≡ gy = omega arith in
      let ez : d.start_z + (z - 1) ≡ gz = omega arith in
      let here = holds r inside x y z wx wy wz in cc (bound, here, ex, ey, ez)

  pub reduce-IsBest : 0 < size → IsBest before p field (best start) (reduce size local_best)
  reduce-IsBest some_process = record {
    bound = (λ gx gy gz hx hy hz.
        let (r, inside, c, unique) = compute_decomposition-tiles p size gx gy gz passed hx hy hz in
        orders.not_transitive _ _ _ (local_bound r inside gx gy gz c)
          (picks.bound size local_best r inside));
    found =
        let (r, inside, e) = picks.found size local_best some_process in
        let d = compute_decomposition p r in
        let ok = check-IsPassed p size passed in
        elim (find_minima_maxima-FromBlock before orders best floats d (E r) (step d (E r)) start) [
          | inl at_first ↦ inl (e ∙ at_first)
          | inr (x, y, z, wx, wy, wz, at_point) ↦ inr (
            d.start_x + (x - 1),
            d.start_y + (y - 1),
            d.start_z + (z - 1),
            block_inside p size ok r inside x_direction x wx,
            block_inside p size ok r inside y_direction y wy,
            block_inside p size ok r inside z_direction z wz,
            e ∙ (at_point ∙ holds r inside x y z wx wy wz),
          )
        ];
  }
