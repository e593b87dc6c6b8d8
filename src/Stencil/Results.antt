-- ===== src/Stencil/Results.antt =====
-- The exchange and the results, for all processes.
use mtech.Prelude.{ℕ, ◌+◌, ◌-◌, ◌*◌, ◌^◌, ◌≤◌, ◌<◌, ◌≡◌, refl, ap, ◌∙◌, Bool, some, arith}
use mtech.Prelude.Sums.{sum_3_le}
use native.Mathlib.Nat.{mul-le-mul, mul-pos}
use mtech.Stencil.Decomposition.{Params, Decomposition, compute_decomposition, Check, check}
use mtech.Stencil.Place.{IsPassed, check-IsPassed}
use mtech.Stencil.Loops.{Within}
use mtech.Stencil.Cube.{Cube, Buffer}
use mtech.Stencil.Exchange.{Direction, layers, rows, width, low, high, Mpi, exchange_boundary_data}
use mtech.Stencil.Links.{start}
use mtech.Stencil.Halo.{
  Delivers, HoldsBlock, Shows, exchange-HoldsBlock, exchange-low, exchange-high,
}
use mtech.Stencil.Extrema.{Floats, Found, visit}
use mtech.Stencil.Scan.{at_least}
use mtech.Stencil.Beside.{strict}
use mtech.Stencil.Counts.{bit}
use mtech.Stencil.Step.{local_size, view, fill, local_step, time_step, main_loop}
use mtech.Stencil.Fill.{Reads, BlocksFit, BlocksFit-block_floats, field_of, fill-HoldsBlock}
use mtech.Stencil.Totals.{Adds, strict_count, time_step-counts, main_loop_lem}
use mtech.Stencil.Best.{Orders}
use mtech.Stencil.Range.{Picks, IsBest, reduce-IsBest}

-- A face of a block shows the layer of the neighbour's block that adjoins it, in the ghost cells.
abbrev pub GhostsShow : {R : Type 0} → Cube R → Decomposition → Cube R → Type 0
GhostsShow field d c =
    (dir : Direction) (u v : ℕ)
    → 0 < layers dir d
    → Within (rows dir d) u
    → Within (width dir d) v
    → ((s : ℕ) → low dir d ≡ some s → Shows dir field d c 0 (start dir d - 1) u v)
      × ((s : ℕ)
          → high dir d ≡ some s
          → Shows dir field d c (layers dir d + 1) (start dir d + layers dir d) u v)

-- Where the tests of the arguments pass, MPI_Sendrecv delivers and every process holds its block of a
-- global field, every process holds it after `exchange_boundary_data`, too, and the ghost cells of
-- each face with a neighbour are the points of the global field next to the block there.
pub exchange_boundary_data-GhostsShow :
    {R : Type 0} (p : Params) (mpi : Mpi R) (size : ℕ)
    → check p size ≡ Check.passed
    → Delivers mpi
    → (blank : Buffer R) (field : Cube R) (world : ℕ → Cube R)
    → ((r : ℕ) → r < size → HoldsBlock field (compute_decomposition p r) (world r))
    → (r : ℕ) → r < size
    → HoldsBlock field (compute_decomposition p r) (exchange_boundary_data p mpi blank world r)
      × GhostsShow field (compute_decomposition p r) (exchange_boundary_data p mpi blank world r)
exchange_boundary_data-GhostsShow p mpi size passed delivers blank field world blocks r inside = (
  exchange-HoldsBlock p mpi size passed delivers blank field world blocks r inside,
  (λ dir u v some_layer wu wv. (
    (λ s l.
        exchange-low p mpi size passed delivers blank field world blocks r inside u v dir some_layer
          wu wv l),
    (λ s l.
        exchange-high p mpi size passed delivers blank field world blocks r inside u v dir
          some_layer wu wv l),
  )),
)

-- Where the tests of the arguments pass, the floats of a block fit in an `int` (`BlocksFit`, which the
-- tests do not ensure) and MPI reads, delivers and adds as it documents, the row of
-- the results for each time step has the numbers of the points of the whole grid in the file that
-- are smaller than all the points beside them, and larger.
pub main_loop-strict_count :
    {R : Type 0} (p : Params) (mpi : Mpi R) (floats : Floats R) (size : ℕ) (zero_value : R)
    (blank : Buffer R)
    → check p size ≡ Check.passed
    → Reads mpi
    → BlocksFit p
    → Delivers mpi
    → Adds mpi
    → (file : Buffer R) (results : ℕ → Found R) (t : ℕ) → t < p.nc
    → let row = main_loop p mpi floats size zero_value blank file results t in
      (row.minima_count ≡ strict_count floats.le p (field_of p file t))
      × (row.maxima_count ≡ strict_count (at_least floats) p (field_of p file t))
main_loop-strict_count p mpi floats size zero_value blank passed reads fits delivers adds file
      results t h =
    let row =
      main_loop_lem p mpi floats size zero_value blank passed reads fits delivers file t h
        results in
    let (low, high) =
      time_step-counts p mpi floats size zero_value blank passed reads fits delivers file t h
        adds in
    (ap (λ s. s.minima_count) row ∙ low, ap (λ s. s.maxima_count) row ∙ high)

-- `a > b`
abbrev pub gt : {R : Type 0} → Floats R → R → R → Bool
gt floats a b = floats.lt b a

pub Orders-gt : {R : Type 0} (floats : Floats R) → Orders floats.lt → Orders (gt floats)
Orders-gt floats o = record {
  irreflexive = o.irreflexive;
  transitive = (λ a b c h k. o.transitive c b a k h);
  not_transitive = (λ a b c h k. o.not_transitive c b a k h);
}

some_process : (p : Params) (size : ℕ) → IsPassed p size → 0 < size
some_process p size ok = rw (← ok.count) (mul-pos (mul-pos ok.some_x ok.some_y) ok.some_z)

module _ {R : Type 0} (p : Params) (mpi : Mpi R) (floats : Floats R) (size : ℕ) (zero_value : R)
    (blank : Buffer R) (passed : check p size ≡ Check.passed) (reads : Reads mpi)
    (fits : BlocksFit p) (delivers : Delivers mpi) (orders : Orders floats.lt)
    (picks_min : Picks floats.lt mpi.reduce_min) (picks_max : Picks (gt floats) mpi.reduce_max)
    (file : Buffer R) (t : ℕ) (in_time : t < p.nc) where
  filled : ℕ → Cube R
  filled r =
      let d = compute_decomposition p r in
      fill p zero_value d (mpi.read_all (view p d) (local_size p d) file) t

  time_step-IsBest :
      let row =
        time_step p mpi floats size zero_value blank
          (λ r. let d = compute_decomposition p r in mpi.read_all (view p d) (local_size p d) file)
          t in
      IsBest floats.lt p (field_of p file t) floats.flt_max row.min
      × IsBest (gt floats) p (field_of p file t) floats.minus_flt_max row.max
  unfolding time_step local_step visit filled
  time_step-IsBest =
      let some_size = some_process p size (check-IsPassed p size passed) in
      let first : Found R = record {
        minima_count = 0;
        maxima_count = 0;
        min = floats.flt_max;
        max = floats.minus_flt_max;
      } in
      let blocks : (r : ℕ)
          → r < size
          → HoldsBlock (field_of p file t) (compute_decomposition p r) (filled r) =
        (λ r h.
          fill-HoldsBlock p zero_value (compute_decomposition p r) t mpi reads
            (BlocksFit-block_floats p _ fits) file in_time) in
      (
        reduce-IsBest p mpi floats size blank passed delivers (field_of p file t) filled blocks
            floats.lt orders mpi.reduce_min picks_min (λ s. s.min) first (λ d c x y z s. refl)
            some_size,
        reduce-IsBest p mpi floats size blank passed delivers (field_of p file t) filled blocks
            (gt floats) (Orders-gt floats orders) mpi.reduce_max picks_max (λ s. s.max) first
            (λ d c x y z s. refl) some_size,
      )

-- Where the tests of the arguments pass, the floats of a block fit in an `int` (`BlocksFit`, which the
-- tests do not ensure), MPI reads, delivers and picks the least and the greatest as
-- it documents, and the comparison orders the floats, the row of the results for each time step has
-- the smallest and the largest value of the whole grid in the file: none is below or above them, and
-- each is a value of the grid, or the FLT_MAX or -FLT_MAX of the start.
pub main_loop-IsBest :
    {R : Type 0} (p : Params) (mpi : Mpi R) (floats : Floats R) (size : ℕ) (zero_value : R)
    (blank : Buffer R)
    → check p size ≡ Check.passed
    → Reads mpi
    → BlocksFit p
    → Delivers mpi
    → Orders floats.lt
    → Picks floats.lt mpi.reduce_min
    → Picks (gt floats) mpi.reduce_max
    → (file : Buffer R) (results : ℕ → Found R) (t : ℕ) → t < p.nc
    → let row = main_loop p mpi floats size zero_value blank file results t in
      IsBest floats.lt p (field_of p file t) floats.flt_max row.min
      × IsBest (gt floats) p (field_of p file t) floats.minus_flt_max row.max
main_loop-IsBest p mpi floats size zero_value blank passed reads fits delivers orders picks_min
      picks_max file results t h =
    rw
      (main_loop_lem p mpi floats size zero_value blank passed reads fits delivers file t h results)
      (time_step-IsBest p mpi floats size zero_value blank passed reads fits delivers orders
        picks_min picks_max file t h)

strict_count-le :
    {R : Type 0} (compare : R → R → Bool) (p : Params) (size : ℕ) (field : Cube R)
    → check p size ≡ Check.passed
    → strict_count compare p field ≤ 1024 * (1024 * (1024 * 1))
unfolding check
strict_count-le compare p size field passed =
    let hx : p.nx ≤ 1024 = ground arith in
    let hy : p.ny ≤ 1024 = ground arith in
    let hz : p.nz ≤ 1024 = ground arith in
    let one : 1 ≤ 1 = omega arith in
    let points =
      sum_3_le p.nx p.ny p.nz _ (λ x y z bx by bz. bit_le (strict compare p field x y z)) in
    let most = mul-le-mul hx (mul-le-mul hy (mul-le-mul hz one)) in omega (arith, points, most)
  where
    bit_le : (b : Bool) → bit b ≤ 1
    bit_le b = ground arith

-- Under the conditions on the counts, they fit in an `int`.
pub main_loop-fits :
    {R : Type 0} (p : Params) (mpi : Mpi R) (floats : Floats R) (size : ℕ) (zero_value : R)
    (blank : Buffer R)
    → check p size ≡ Check.passed
    → Reads mpi
    → BlocksFit p
    → Delivers mpi
    → Adds mpi
    → (file : Buffer R) (results : ℕ → Found R) (t : ℕ) → t < p.nc
    → let row = main_loop p mpi floats size zero_value blank file results t in
      (row.minima_count < 2 ^ 31) × (row.maxima_count < 2 ^ 31)
main_loop-fits p mpi floats size zero_value blank passed reads fits delivers adds file results t h =
    let (low, high) =
      main_loop-strict_count p mpi floats size zero_value blank passed reads fits delivers adds file
        results t h in
    let field = field_of p file t in
    (
      omega (arith, low, strict_count-le floats.le p size field passed),
      omega (arith, high, strict_count-le (at_least floats) p size field passed),
    )
