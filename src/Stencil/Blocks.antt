-- ===== src/Stencil/Blocks.antt =====
-- The blocks of the processes, and their neighbours.
use mtech.Prelude.{ℕ, ◌+◌, ◌*◌, ◌/◌, ◌%◌, ◌≤◌, ◌<◌, ◌≡◌, ap, subst, ◌∙◌, arith, dec_lt}
use native.Mathlib.Nat.{
  div-lt_iff_lt-mul, mod-add-div, lt-div-mul-add, div-mul-le_self, div-eq_of_lt-le, add-mul,
  mul-zero, mul_assoc, mul-suc, mul-le-mul_left,
}
use mtech.Stencil.Decomposition.{Params, Decomposition, compute_decomposition, Check, check}
use mtech.Stencil.Place.{
  place, place-mod, place-div_mod, place-div_div, IsPassed, check-IsPassed, rank-place,
}

-- The grid point is in the block.
pub record Contains (d : Decomposition) (gx gy gz : ℕ) : Type 0 where
  pub from_x : d.start_x ≤ gx
  pub to_x : gx < d.start_x + d.sub_nx
  pub from_y : d.start_y ≤ gy
  pub to_y : gy < d.start_y + d.sub_ny
  pub from_z : d.start_z ≤ gz
  pub to_z : gz < d.start_z + d.sub_nz

-- A block of an axis of `n` points in `k` blocks.
module _ (n k : ℕ) (some_k : 0 < k) (whole : n % k ≡ 0) where
  pub block_size : k * (n / k) ≡ n
  block_size = omega (arith, mod-add-div n k)

  block_pos : (g : ℕ) → g < n → 0 < n / k
  block_pos g h = elim (dec_lt 0 (n / k)) [
    | yes some_points ↦ some_points
    | no none_left ↦
        let empty : k * (n / k) ≡ 0 = ap (λ q. k * q) (omega arith) ∙ mul-zero k in
        absurd (omega (arith, h, block_size, empty))
  ]

  block_in : (g : ℕ) → g < n → g / (n / k) < k
  block_in g h = (div-lt_iff_lt-mul (block_pos g h)).1 (omega (arith, h, block_size))

  block_from : (g : ℕ) → g / (n / k) * (n / k) ≤ g
  block_from g = div-mul-le_self g (n / k)

  block_to : (g : ℕ) → g < n → g < g / (n / k) * (n / k) + n / k
  block_to g h = lt-div-mul-add (block_pos g h)

  block_unique : (g x : ℕ) → x * (n / k) ≤ g → g < x * (n / k) + n / k → g / (n / k) ≡ x
  block_unique g x low high = div-eq_of_lt-le (n / k) low (omega (arith, high, add-mul x 1 (n / k)))

-- A digit and what stands before it.
digit : (a b x q : ℕ) → x < a → q < b → x + a * q < a * b
digit a b x q hx hq = omega (arith, hx, mul-le-mul_left a hq, mul-suc a q)

-- The place of the process that has a grid point.
abbrev owner : Params → ℕ → ℕ → ℕ → ℕ
owner p gx gy gz = place p (gx / (p.nx / p.px)) (gy / (p.ny / p.py)) (gz / (p.nz / p.pz))

module _ (p : Params) (size : ℕ) (ok : IsPassed p size) where
  pub place-lt : (x y z : ℕ) → x < p.px → y < p.py → z < p.pz → place p x y z < size
  unfolding place
  place-lt x y z hx hy hz =
      let row = digit p.px (p.py * p.pz) x (y + p.py * z) hx (digit p.py p.pz y z hy hz) in
      omega (arith, row, mul_assoc p.px p.py p.pz, ok.count)

  Contains-at :
      (x y z gx gy gz : ℕ)
      → x < p.px
      → y < p.py
      → Contains (compute_decomposition p (place p x y z)) gx gy gz
      → (gx / (p.nx / p.px) ≡ x) × (gy / (p.ny / p.py) ≡ y) × (gz / (p.nz / p.pz) ≡ z)
  unfolding compute_decomposition
  Contains-at x y z gx gy gz hx hy c =
      let ex = place-mod p x y z hx hy in
      let ey = place-div_mod p x y z hx hy in
      let ez = place-div_div p x y z hx hy in
      let at_x = ap (λ q. q * (p.nx / p.px)) ex in
      let at_y = ap (λ q. q * (p.ny / p.py)) ey in
      let at_z = ap (λ q. q * (p.nz / p.pz)) ez in
      (
        block_unique p.nx p.px ok.some_x ok.whole_x gx x (omega (arith, c.from_x, at_x))
            (omega (arith, c.to_x, at_x)),
        block_unique p.ny p.py ok.some_y ok.whole_y gy y (omega (arith, c.from_y, at_y))
            (omega (arith, c.to_y, at_y)),
        block_unique p.nz p.pz ok.some_z ok.whole_z gz z (omega (arith, c.from_z, at_z))
            (omega (arith, c.to_z, at_z)),
      )

  owner-Contains :
      (gx gy gz : ℕ)
      → gx < p.nx
      → gy < p.ny
      → gz < p.nz
      → Contains (compute_decomposition p (owner p gx gy gz)) gx gy gz
  unfolding compute_decomposition
  owner-Contains gx gy gz hx hy hz =
      let x = gx / (p.nx / p.px) in
      let y = gy / (p.ny / p.py) in
      let z = gz / (p.nz / p.pz) in
      let in_x = block_in p.nx p.px ok.some_x ok.whole_x gx hx in
      let in_y = block_in p.ny p.py ok.some_y ok.whole_y gy hy in
      let at_x = ap (λ q. q * (p.nx / p.px)) (place-mod p x y z in_x in_y) in
      let at_y = ap (λ q. q * (p.ny / p.py)) (place-div_mod p x y z in_x in_y) in
      let at_z = ap (λ q. q * (p.nz / p.pz)) (place-div_div p x y z in_x in_y) in
      record {
        from_x = omega (arith, at_x, block_from p.nx p.px ok.some_x ok.whole_x gx);
        to_x = omega (arith, at_x, block_to p.nx p.px ok.some_x ok.whole_x gx hx);
        from_y = omega (arith, at_y, block_from p.ny p.py ok.some_y ok.whole_y gy);
        to_y = omega (arith, at_y, block_to p.ny p.py ok.some_y ok.whole_y gy hy);
        from_z = omega (arith, at_z, block_from p.nz p.pz ok.some_z ok.whole_z gz);
        to_z = omega (arith, at_z, block_to p.nz p.pz ok.some_z ok.whole_z gz hz);
      }

-- Where the tests of the arguments pass, every point of the grid is in the block of exactly one of
-- the processes.
pub compute_decomposition-tiles :
    (p : Params) (size gx gy gz : ℕ)
    → check p size ≡ Check.passed
    → gx < p.nx
    → gy < p.ny
    → gz < p.nz
    → (rank : ℕ) × (rank < size)
      × Contains (compute_decomposition p rank) gx gy gz
      × ((other : ℕ)
          → other < size
          → Contains (compute_decomposition p other) gx gy gz
          → other ≡ rank)
compute_decomposition-tiles p size gx gy gz passed hx hy hz =
    let ok = check-IsPassed p size passed in
    (
      owner p gx gy gz,
      place-lt p size ok _ _ _ (block_in p.nx p.px ok.some_x ok.whole_x gx hx)
          (block_in p.ny p.py ok.some_y ok.whole_y gy hy)
          (block_in p.nz p.pz ok.some_z ok.whole_z gz hz),
      owner-Contains p size ok gx gy gz hx hy hz,
      (λ other h c.
          let (x, y, z, bx, by, bz, e) = rank-place p size other ok h in
          let c' = subst (λ r. Contains (compute_decomposition p r) gx gy gz) e c in
          let (ex, ey, ez) = Contains-at p size ok x y z gx gy gz bx by c' in e ∙ cc (ex, ey, ez)),
    )
