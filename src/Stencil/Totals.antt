-- ===== src/Stencil/Totals.antt =====
-- The counts that the root writes are those of the whole grid.
use mtech.Prelude.{ℕ, suc, ◌+◌, ◌-◌, ◌<◌, ◌≡◌, ◌∙◌, Bool, arith, ℕ_discrete}
use mtech.Prelude.Family.{update}
use mtech.Prelude.Sums.{sum, sum_ext, sum_3}
use native.Mathlib.Nat.{zero-add}
use mtech.Stencil.Decomposition.{Params, compute_decomposition, Check, check}
use mtech.Stencil.Place.{check-IsPassed}
use mtech.Stencil.Loops.{loop_reach}
use mtech.Stencil.Cube.{Cube, Buffer}
use mtech.Stencil.Exchange.{Mpi}
use mtech.Stencil.Halo.{Delivers}
use mtech.Stencil.Extrema.{Floats, Found}
use mtech.Stencil.Scan.{at_least}
use mtech.Stencil.Beside.{strict}
use mtech.Stencil.Counts.{bit, find_minima_maxima-counts}
use mtech.Stencil.Global.{sum-blocks_lem}
use mtech.Stencil.Step.{local_size, view, fill, local_step, time_step, main_loop}
use mtech.Stencil.Fill.{Reads, BlocksFit, BlocksFit-block_floats, field_of, fill-HoldsBlock}

-- What MPI documents of MPI_Reduce with MPI_SUM.
pub record Adds {R : Type 0} (mpi : Mpi R) : Type 0 where
  pub adds : (n : ℕ) (f : ℕ → ℕ) → mpi.reduce_sum n f ≡ sum n f

-- How many points of the grid are strict.
abbrev pub strict_count : {R : Type 0} → (R → R → Bool) → Params → Cube R → ℕ
strict_count compare p field = sum_3 p.nx p.ny p.nz (λ x y z. bit (strict compare p field x y z))

module _ {R : Type 0} (p : Params) (mpi : Mpi R) (floats : Floats R) (size : ℕ) (zero_value : R)
    (blank : Buffer R) (passed : check p size ≡ Check.passed) (reads : Reads mpi)
    (fits : BlocksFit p) (delivers : Delivers mpi) (file : Buffer R) where
  abbrev pub local_buffers : ℕ → Buffer R
  local_buffers r =
      let d = compute_decomposition p r in mpi.read_all (view p d) (local_size p d) file

  module _ (t : ℕ) (in_time : t < p.nc) where
    abbrev field : Cube R
    field = field_of p file t

    local_step-counts :
        (r : ℕ)
        → r < size
        → let d = compute_decomposition p r in
          let found = local_step p mpi floats size zero_value blank local_buffers t r in
          (found.minima_count
            ≡ sum_3 d.sub_nx d.sub_ny d.sub_nz (λ x y z.
              bit (strict floats.le p field (d.start_x + x) (d.start_y + y) (d.start_z + z))))
          × (found.maxima_count
              ≡ sum_3 d.sub_nx d.sub_ny d.sub_nz (λ x y z.
                bit (
                  strict
                    (at_least floats)
                    p
                    field
                    (d.start_x + x)
                    (d.start_y + y)
                    (d.start_z + z))))
    unfolding local_step
    local_step-counts r inside =
        let (low, high) =
          find_minima_maxima-counts floats p mpi size passed delivers blank field
            (λ s. fill p zero_value (compute_decomposition p s) (local_buffers s) t)
            (λ s hs.
              fill-HoldsBlock p zero_value (compute_decomposition p s) t mpi reads
                (BlocksFit-block_floats p _ fits) file in_time)
            r inside
            (record {
              minima_count = 0;
              maxima_count = 0;
              min = floats.flt_max;
              max = floats.minus_flt_max;
            }) in
        (low ∙ zero-add _, high ∙ zero-add _)

    pub time_step-counts :
        Adds mpi
        → let found = time_step p mpi floats size zero_value blank local_buffers t in
          (found.minima_count ≡ strict_count floats.le p field)
          × (found.maxima_count ≡ strict_count (at_least floats) p field)
    unfolding time_step
    time_step-counts adds =
        let ok = check-IsPassed p size passed in
        (
          adds.adds size _
              ∙ (sum_ext size _ _ (λ r h. (local_step-counts r h).0)
                  ∙ sum-blocks_lem p size ok (λ x y z. bit (strict floats.le p field x y z))),
          adds.adds size _
              ∙ (sum_ext size _ _ (λ r h. (local_step-counts r h).1)
                  ∙ sum-blocks_lem p size ok
                      (λ x y z. bit (strict (at_least floats) p field x y z))),
        )

    -- A row of the results is that of its time step.
    pub main_loop_lem :
        (results : ℕ → Found R)
        → main_loop p mpi floats size zero_value blank file results t
          ≡ time_step p mpi floats size zero_value blank local_buffers t
    unfolding main_loop
    main_loop_lem results =
        let step = time_step p mpi floats size zero_value blank local_buffers in
        loop_reach (λ s. s t ≡ step t) p.nc (λ i s. update s (i - 1) (step (i - 1))) (suc t)
          (omega arith) (λ s. let e : suc t - 1 ≡ t = omega arith in rw e (ground arith))
          (λ j s w same. elim (ℕ_discrete (j - 1) t) [
            | yes e ↦ rw e (ground arith)
            | no ne ↦ ground arith
          ])
          results
