-- ===== src/Stencil/Decomposition.antt =====
-- `compute_decomposition`, and the tests of the arguments before it.
use mtech.Prelude.{
  ℕ, ◌+◌, ◌-◌, ◌*◌, ◌/◌, ◌%◌, not, ◌&&◌, ◌||◌, Option, none, some, ◌==◌, leb, if◌then◌else◌,
}

-- PX, PY and PZ, NX, NY and NZ, and NC: the arguments as numbers. Negative ones are not modelled.
pub record Params : Type 0 where
  pub px : ℕ
  pub py : ℕ
  pub pz : ℕ
  pub nx : ℕ
  pub ny : ℕ
  pub nz : ℕ
  pub nc : ℕ

-- Which of the messages `main` prints before it aborts, or that it goes on.
pub data Check : Type 0 where
  wrong_process_count not_divisible constraints passed : Check

unfoldable pub check : Params → ℕ → Check
check p size =
    if not (p.px * p.py * p.pz == size)
    then Check.wrong_process_count
    else (if not (p.nx % p.px == 0) || (not (p.ny % p.py == 0) || not (p.nz % p.pz == 0))
        then Check.not_divisible
        else (if not (
              leb 1 p.px
              && (leb 1 p.py
                  && (leb 1 p.pz
                      && (leb p.nx 1024
                          && (leb p.ny 1024 && (leb p.nz 1024 && (leb 1 p.nc && leb p.nc 1000)))))))
            then Check.constraints
            else Check.passed))

-- The globals that `compute_decomposition` sets; a neighbour that is MPI_PROC_NULL is `none`.
pub record Decomposition : Type 0 where
  pub sub_nx : ℕ
  pub sub_ny : ℕ
  pub sub_nz : ℕ
  pub start_x : ℕ
  pub start_y : ℕ
  pub start_z : ℕ
  pub left : Option ℕ
  pub right : Option ℕ
  pub down : Option ℕ
  pub up : Option ℕ
  pub front : Option ℕ
  pub back : Option ℕ

unfoldable pub compute_decomposition : Params → ℕ → Decomposition
compute_decomposition p rank =
    let sub_nx = p.nx / p.px in
    let sub_ny = p.ny / p.py in
    let sub_nz = p.nz / p.pz in
    let px = rank % p.px in
    let py = rank / p.px % p.py in
    let pz = rank / (p.px * p.py) in
    record {
      sub_nx = sub_nx;
      sub_ny = sub_ny;
      sub_nz = sub_nz;
      start_x = px * sub_nx;
      start_y = py * sub_ny;
      start_z = pz * sub_nz;
      left = if px == 0 then none else some (rank - 1);
      right = if px == p.px - 1 then none else some (rank + 1);
      down = if py == 0 then none else some (rank - p.px);
      up = if py == p.py - 1 then none else some (rank + p.px);
      front = if pz == 0 then none else some (rank - p.px * p.py);
      back = if pz == p.pz - 1 then none else some (rank + p.px * p.py);
    }
