-- ===== src/Stencil/Links.antt =====
-- The two ends of each link between neighbours, in each direction.
use mtech.Prelude.{ℕ, zero, suc, ◌+◌, ◌<◌, ◌≡◌, some, arith}
use mtech.Stencil.Decomposition.{Params, Decomposition, compute_decomposition, Check, check}
use mtech.Stencil.Place.{
  place, place-mod, place-div_mod, place-div_div, IsPassed, check-IsPassed, rank-place,
}
use mtech.Stencil.Blocks.{place-lt}
use mtech.Stencil.Neighbors.{place-right, place-up, place-back, compute_decomposition-mutual}
use mtech.Stencil.Exchange.{Direction, x_direction, y_direction, z_direction, low, high, layers}

-- Where a block starts in a direction, and in the other two.
abbrev pub start : Direction → Decomposition → ℕ
start x_direction d = d.start_x
start y_direction d = d.start_y
start z_direction d = d.start_z

abbrev pub row_start : Direction → Decomposition → ℕ
row_start x_direction d = d.start_y
row_start y_direction d = d.start_x
row_start z_direction d = d.start_x

abbrev pub width_start : Direction → Decomposition → ℕ
width_start x_direction d = d.start_z
width_start y_direction d = d.start_z
width_start z_direction d = d.start_y

-- The second block is the next after the first in a direction.
pub record Follows (dir : Direction) (d d' : Decomposition) : Type 0 where
  pub start : start dir d' ≡ start dir d + layers dir d
  pub row_start : row_start dir d' ≡ row_start dir d
  pub width_start : width_start dir d' ≡ width_start dir d

module _ (p : Params) (size : ℕ) (ok : IsPassed p size) (s : ℕ) where
  left-right :
      (x y z : ℕ)
      → x < p.px
      → y < p.py
      → z < p.pz
      → (compute_decomposition p (place p x y z)).left ≡ some s
      → (s < size) × ((compute_decomposition p s).right ≡ some (place p x y z))
  unfolding compute_decomposition
  left-right zero y z hx hy hz h = let e = place-mod p zero y z hx hy in absurd (ground arith)
  left-right (suc x) y z hx hy hz h =
      let below : x < p.px = omega arith in
      let e = place-mod p (suc x) y z hx hy in
      let e' = place-mod p x y z below hy in
      let next = place-right p x y z below hy in
      let found : s ≡ place p x y z = ground arith in
      rw found (place-lt p size ok x y z below hy hz, ground arith)

  down-up :
      (x y z : ℕ)
      → x < p.px
      → y < p.py
      → z < p.pz
      → (compute_decomposition p (place p x y z)).down ≡ some s
      → (s < size) × ((compute_decomposition p s).up ≡ some (place p x y z))
  unfolding compute_decomposition
  down-up x zero z hx hy hz h = let e = place-div_mod p x zero z hx hy in absurd (ground arith)
  down-up x (suc y) z hx hy hz h =
      let below : y < p.py = omega arith in
      let e = place-div_mod p x (suc y) z hx hy in
      let e' = place-div_mod p x y z hx below in
      let next = place-up p x y z hx below in
      let found : s ≡ place p x y z = ground arith in
      rw found (place-lt p size ok x y z hx below hz, ground arith)

  front-back :
      (x y z : ℕ)
      → x < p.px
      → y < p.py
      → z < p.pz
      → (compute_decomposition p (place p x y z)).front ≡ some s
      → (s < size) × ((compute_decomposition p s).back ≡ some (place p x y z))
  unfolding compute_decomposition
  front-back x y zero hx hy hz h = let e = place-div_div p x y zero hx hy in absurd (ground arith)
  front-back x y (suc z) hx hy hz h =
      let below : z < p.pz = omega arith in
      let e = place-div_div p x y (suc z) hx hy in
      let e' = place-div_div p x y z hx hy in
      let next = place-back p x y z hx hy in
      let found : s ≡ place p x y z = ground arith in
      rw found (place-lt p size ok x y z hx hy below, ground arith)

module _ (p : Params) (size : ℕ) (passed : check p size ≡ Check.passed) (rank r : ℕ) where
  pub high-link :
      (dir : Direction)
      → rank < size
      → high dir (compute_decomposition p rank) ≡ some r
      → (r < size)
        × (low dir (compute_decomposition p r) ≡ some rank)
        × Follows dir (compute_decomposition p rank) (compute_decomposition p r)
  high-link x_direction h e =
      let (inside, back, f) = (compute_decomposition-mutual p size rank r passed h).0 e in
      (inside, back, record { start = f.x; row_start = f.y; width_start = f.z })
  high-link y_direction h e =
      let (inside, back, f) = (compute_decomposition-mutual p size rank r passed h).1 e in
      (inside, back, record { start = f.y; row_start = f.x; width_start = f.z })
  high-link z_direction h e =
      let (inside, back, f) = (compute_decomposition-mutual p size rank r passed h).2 e in
      (inside, back, record { start = f.z; row_start = f.x; width_start = f.y })

  low-high :
      (dir : Direction)
      → rank < size
      → low dir (compute_decomposition p rank) ≡ some r
      → (r < size) × (high dir (compute_decomposition p r) ≡ some rank)
  low-high dir h =
      let ok = check-IsPassed p size passed in
      let (x, y, z, hx, hy, hz, e) = rank-place p size rank ok h in
      rw e (at_place ok dir x y z hx hy hz)
    where
      at_place :
          (ok : IsPassed p size) (dir : Direction) (x y z : ℕ)
          → x < p.px
          → y < p.py
          → z < p.pz
          → low dir (compute_decomposition p (place p x y z)) ≡ some r
          → (r < size) × (high dir (compute_decomposition p r) ≡ some (place p x y z))
      at_place ok x_direction x y z hx hy hz = left-right p size ok r x y z hx hy hz
      at_place ok y_direction x y z hx hy hz = down-up p size ok r x y z hx hy hz
      at_place ok z_direction x y z hx hy hz = front-back p size ok r x y z hx hy hz

pub low-link :
    (p : Params) (size : ℕ)
    → check p size ≡ Check.passed
    → (rank r : ℕ) (dir : Direction) → rank < size
    → low dir (compute_decomposition p rank) ≡ some r
    → (r < size)
      × (high dir (compute_decomposition p r) ≡ some rank)
      × Follows dir (compute_decomposition p r) (compute_decomposition p rank)
low-link p size passed rank r dir h e =
    let (inside, back) = low-high p size passed rank r dir h e in
    let (own, there, f) = high-link p size passed r rank dir inside back in (inside, back, f)
