-- ===== src/Stencil/Step.antt =====
-- `main` from the file view to the results: what is read, the loop over the time steps, and the
-- reductions. All processes run together.
use mtech.Prelude.{ℕ, ◌+◌, ◌-◌, ◌*◌, ◌%◌, ◌^◌}
use mtech.Prelude.Family.{update}
use mtech.Stencil.Decomposition.{Params, Decomposition, compute_decomposition}
use mtech.Stencil.Loops.{loop, for_3d}
use mtech.Stencil.Cube.{Cube, Buffer, set_cell}
use mtech.Stencil.Exchange.{View, Mpi, exchange_boundary_data}
use mtech.Stencil.Extrema.{Floats, Found, find_minima_maxima}

-- `local_size`: 32-bit arithmetic of `int`, as a bit pattern.
abbrev pub local_size : Params → Decomposition → ℕ
local_size p d = d.sub_nx * d.sub_ny * d.sub_nz * p.nc % 2 ^ 32

abbrev pub view : Params → Decomposition → View
view p d = record {
  sizes = (p.nz, p.ny, p.nx);
  subsizes = (d.sub_nz, d.sub_ny, d.sub_nx);
  starts = (d.start_z, d.start_y, d.start_x);
  nc = p.nc;
}

-- `flat_index`, likewise: a pattern from 2 ^ 31 on is a negative index, before the buffer.
abbrev pub flat_index : Params → Decomposition → ℕ → ℕ → ℕ → ℕ → ℕ
flat_index p d t x y z = ((((z - 1) * d.sub_ny + (y - 1)) * d.sub_nx + (x - 1)) * p.nc + t) % 2 ^ 32

module _ {R : Type 0} (p : Params) where
  -- Fill local_data, which `calloc` gave with zeros, for a time step.
  unfoldable pub fill : R → Decomposition → Buffer R → ℕ → Cube R
  unfolding for_3d
  fill zero_value d local_buffer t =
      for_3d d.sub_nx d.sub_ny d.sub_nz
        (λ x y z. set_cell x y z (local_buffer (flat_index p d t x y z))) (λ x y z. zero_value)

  module _ (mpi : Mpi R) (floats : Floats R) (size : ℕ) (zero_value : R) (blank : Buffer R) where
    -- What a process finds in its block.
    unfoldable pub local_step : (ℕ → Buffer R) → ℕ → ℕ → Found R
    unfolding fill exchange_boundary_data find_minima_maxima
    local_step local_buffer t rank =
        let filled : ℕ → Cube R =
          (λ r. fill zero_value (compute_decomposition p r) (local_buffer r) t) in
        find_minima_maxima floats (compute_decomposition p rank)
          (exchange_boundary_data p mpi blank filled rank)
          (record {
            minima_count = 0;
            maxima_count = 0;
            min = floats.flt_max;
            max = floats.minus_flt_max;
          })

    -- What the root gets of it.
    unfoldable pub time_step : (ℕ → Buffer R) → ℕ → Found R
    unfolding local_step
    time_step local_buffer t =
        let found = local_step local_buffer t in
        record {
          minima_count = mpi.reduce_sum size (λ r. (found r).minima_count);
          maxima_count = mpi.reduce_sum size (λ r. (found r).maxima_count);
          min = mpi.reduce_min size (λ r. (found r).min);
          max = mpi.reduce_max size (λ r. (found r).max);
        }

    -- minima_counts, maxima_counts, global_mins and global_maxs, by the time step.
    unfoldable pub main_loop : Buffer R → (ℕ → Found R) → ℕ → Found R
    unfolding loop time_step
    main_loop file results =
        let local_buffer : ℕ → Buffer R = (λ r.
          let d = compute_decomposition p r in mpi.read_all (view p d) (local_size p d) file) in
        loop p.nc (λ i done. update done (i - 1) (time_step local_buffer (i - 1))) results
