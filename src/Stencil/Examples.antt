-- ===== src/Stencil/Examples.antt =====
-- Four processes, and the theorems at concrete inputs.
use mtech.Prelude.{ℕ, ◌+◌, ◌-◌, ◌*◌, ◌%◌, ◌^◌, ◌<◌, ◌≡◌, refl, none, some, ltb, arith}
use mtech.Prelude.Sums.{sum}
use mtech.Stencil.Decomposition.{Params, compute_decomposition, Check, check}
use mtech.Stencil.Blocks.{Contains, compute_decomposition-tiles}
use mtech.Stencil.Cube.{Cube, Buffer, offset, allocated}
use mtech.Stencil.Layout.{offset-allocated}
use mtech.Stencil.Exchange.{exchange_boundary_data}
use mtech.Stencil.Halo.{HoldsBlock}
use mtech.Stencil.Extrema.{Found}
use mtech.Stencil.Scan.{at_least}
use mtech.Stencil.Step.{local_size, main_loop}
use mtech.Stencil.Fill.{field_of}
use mtech.Stencil.Totals.{strict_count}
use mtech.Stencil.Range.{IsBest}
use mtech.Stencil.Results.{
  GhostsShow, exchange_boundary_data-GhostsShow, main_loop-strict_count, gt, Orders-gt,
  main_loop-IsBest,
}
use mtech.Stencil.Concrete.{
  naturals, local_mpi, local_mpi-Delivers, local_mpi-Adds, local_mpi-Reads, ltb-Orders,
  best_of-Picks,
}

-- 2 by 2 by 1 processes, a grid of 8 by 4 by 3 points.
abbrev four : Params
four = record { px = 2; py = 2; pz = 1; nx = 8; ny = 4; nz = 3; nc = 5 }

four-passed : check four 4 ≡ Check.passed
unfolding check
four-passed = refl

-- One process too many, and a grid that does not divide.
refused :
    (check four 5 ≡ Check.wrong_process_count)
    × (check (record four { nx = 7 }) 4 ≡ Check.not_divisible)
    × (check (record four { nx = 2048 }) 4 ≡ Check.constraints)
unfolding check
refused = (refl, refl, refl)

last_block : compute_decomposition four 3 ≡ record {
  sub_nx = 4;
  sub_ny = 2;
  sub_nz = 3;
  start_x = 4;
  start_y = 2;
  start_z = 0;
  left = some 2;
  right = none;
  down = some 1;
  up = none;
  front = none;
  back = none;
}
unfolding compute_decomposition
last_block = refl

compute_decomposition-tiles_example :
    (rank : ℕ) × (rank < 4)
    × Contains (compute_decomposition four rank) 5 1 2
    × ((other : ℕ) → other < 4 → Contains (compute_decomposition four other) 5 1 2 → other ≡ rank)
compute_decomposition-tiles_example =
    compute_decomposition-tiles four 4 5 1 2 four-passed (omega arith) (omega arith) (omega arith)

-- A grid in a file, and the start of the results.
abbrev bumps : Buffer ℕ
bumps i = i * i % 7

-- The blocks of it.
abbrev blocks : ℕ → Cube ℕ
blocks r i j k =
    let d = compute_decomposition four r in
    field_of four bumps 3 (d.start_x + (i - 1)) (d.start_y + (j - 1)) (d.start_z + (k - 1))

abbrev no_results : ℕ → Found ℕ
no_results t = record { minima_count = 0; maxima_count = 0; min = 0; max = 0 }

abbrev zeros : Buffer ℕ
zeros i = 0

-- Two processes on a line of four points.
abbrev line : Params
line = record { px = 2; py = 1; pz = 1; nx = 4; ny = 1; nz = 1; nc = 1 }

-- The values are 0, 1, 4 and 2: one point is smaller than those beside it at 0 and one at the end,
-- and 4 is the only one that is larger.
line_results :
    main_loop line local_mpi naturals 2 0 zeros bumps no_results 0
    ≡ record { minima_count = 2; maxima_count = 1; min = 0; max = 4 }
unfolding main_loop sum compute_decomposition
line_results = refl

exchange_boundary_data-GhostsShow_example :
    HoldsBlock
      (field_of four bumps 3)
      (compute_decomposition four 1)
      (exchange_boundary_data four local_mpi zeros blocks 1)
    × GhostsShow
        (field_of four bumps 3)
        (compute_decomposition four 1)
        (exchange_boundary_data four local_mpi zeros blocks 1)
exchange_boundary_data-GhostsShow_example =
    exchange_boundary_data-GhostsShow four local_mpi 4 four-passed local_mpi-Delivers zeros
      (field_of four bumps 3) blocks (λ r h x y z wx wy wz. refl) 1 (omega arith)

main_loop-strict_count_example :
    let row = main_loop four local_mpi naturals 4 0 zeros bumps no_results 3 in
    (row.minima_count ≡ strict_count naturals.le four (field_of four bumps 3))
    × (row.maxima_count ≡ strict_count (at_least naturals) four (field_of four bumps 3))
main_loop-strict_count_example =
    main_loop-strict_count four local_mpi naturals 4 0 zeros four-passed local_mpi-Reads
      (omega arith) local_mpi-Delivers local_mpi-Adds bumps no_results 3 (omega arith)

main_loop-IsBest_example :
    let row = main_loop four local_mpi naturals 4 0 zeros bumps no_results 3 in
    IsBest naturals.lt four (field_of four bumps 3) naturals.flt_max row.min
    × IsBest (gt naturals) four (field_of four bumps 3) naturals.minus_flt_max row.max
main_loop-IsBest_example =
    main_loop-IsBest four local_mpi naturals 4 0 zeros four-passed local_mpi-Reads (omega arith)
      local_mpi-Delivers ltb-Orders (best_of-Picks ltb ltb-Orders)
      (best_of-Picks (gt naturals) (Orders-gt naturals ltb-Orders)) bumps no_results 3 (omega arith)

-- The largest grid that passes the tests: its size does not fit in an `int`, and reads as -2 ^ 31.
abbrev largest : Params
largest = record { px = 1; py = 1; pz = 1; nx = 1024; ny = 1024; nz = 1024; nc = 2 }

local_size_overflow :
    (check largest 1 ≡ Check.passed)
    × (local_size largest (compute_decomposition largest 0) ≡ 2 ^ 31)
unfolding check compute_decomposition
local_size_overflow = (refl, refl)

offset-allocated_example :
    (offset 2 3 5 3 4 < allocated 4 2 3)
    × ((x' y' z' : ℕ)
        → y' < 4
        → z' < 5
        → offset 2 3 5 3 4 ≡ offset 2 3 x' y' z'
        → (5 ≡ x') × (3 ≡ y') × (4 ≡ z'))
offset-allocated_example = offset-allocated 4 2 3 5 3 4 (omega arith) (omega arith) (omega arith)
