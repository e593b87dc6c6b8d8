-- ===== src/Stencil/Edges.antt =====
-- Where the edge of the grid is, and the points next to a point of a block after the exchange.
use mtech.Prelude.{
  ℕ, suc, ◌+◌, ◌-◌, ◌*◌, ◌/◌, ◌%◌, ◌≤◌, ◌<◌, ◌≡◌, refl, sym, ap, ◌∙◌, not, ◌&&◌, ◌==◌, ◌⊎◌, inl,
  inr, ◌≢◌, arith, ℕ_discrete,
}
use native.Mathlib.Nat.{
  mod-lt, suc-mul, zero-mul, mul-le-mul_right, div-lt_iff_lt-mul, mul-pos, mul_comm,
}
use mtech.Stencil.Decomposition.{Params, Decomposition, compute_decomposition}
use mtech.Stencil.Place.{IsPassed}
use mtech.Stencil.Blocks.{block_size}
use mtech.Stencil.Loops.{Within}
use mtech.Stencil.Exchange.{
  Direction, x_direction, y_direction, z_direction, layers, low, high, is_process,
}
use mtech.Stencil.Links.{start}

-- The place of a process on an axis, the processes and the points on it.
abbrev index : Direction → Params → ℕ → ℕ
index x_direction p rank = rank % p.px
index y_direction p rank = rank / p.px % p.py
index z_direction p rank = rank / (p.px * p.py)

abbrev processes : Direction → Params → ℕ
processes x_direction p = p.px
processes y_direction p = p.py
processes z_direction p = p.pz

abbrev pub points : Direction → Params → ℕ
points x_direction p = p.nx
points y_direction p = p.ny
points z_direction p = p.nz

-- The first of `k` blocks of `m` points, the last one, and the others.
module _ (k m q : ℕ) (inside : q < k) where
  first_or_later : ((q ≡ 0) × (q * m ≡ 0)) ⊎ ((0 < q) × (m ≤ q * m))
  first_or_later = elim (ℕ_discrete q 0) [
    | yes e ↦ inl (e, ap (λ i. i * m) e ∙ zero-mul m)
    | no ne ↦ inr (
      omega arith,
      omega (arith, mul-le-mul_right {m = 1} {n = q} m (omega arith), suc-mul 0 m, zero-mul m),
    )
  ]

  last_or_earlier : ((q ≡ k - 1) × (q * m + m ≡ k * m)) ⊎ ((q ≢ k - 1) × (q * m + m + m ≤ k * m))
  last_or_earlier = elim (ℕ_discrete q (k - 1)) [
    | yes e ↦ inl (e, sym (suc-mul q m) ∙ ap (λ i. i * m) {x = suc q} {y = k} (omega arith))
    | no ne ↦ inr (
      ne,
      omega (
        arith,
        mul-le-mul_right {m = suc (suc q)} {n = k} m (omega arith),
        suc-mul (suc q) m,
        suc-mul q m,
      ),
    )
  ]

module _ (p : Params) (size : ℕ) (ok : IsPassed p size) (r : ℕ) (inside : r < size) where
  abbrev d : Decomposition
  d = compute_decomposition p r

  index-lt : (dir : Direction) → index dir p r < processes dir p
  index-lt x_direction = mod-lt r ok.some_x
  index-lt y_direction = mod-lt (r / p.px) ok.some_y
  index-lt z_direction =
      (div-lt_iff_lt-mul (mul-pos ok.some_x ok.some_y)).1
        (omega (arith, inside, ok.count, mul_comm p.pz (p.px * p.py)))

  all_points : (dir : Direction) → processes dir p * layers dir d ≡ points dir p
  unfolding compute_decomposition
  all_points x_direction = block_size p.nx p.px ok.some_x ok.whole_x
  all_points y_direction = block_size p.ny p.py ok.some_y ok.whole_y
  all_points z_direction = block_size p.nz p.pz ok.some_z ok.whole_z

  start-index : (dir : Direction) → start dir d ≡ index dir p r * layers dir d
  unfolding compute_decomposition
  start-index x_direction = refl
  start-index y_direction = refl
  start-index z_direction = refl

  low-is_process : (dir : Direction) → is_process (low dir d) ≡ not (index dir p r == 0)
  unfolding compute_decomposition
  low-is_process x_direction = ground arith
  low-is_process y_direction = ground arith
  low-is_process z_direction = ground arith

  high-is_process :
      (dir : Direction) → is_process (high dir d) ≡ not (index dir p r == processes dir p - 1)
  unfolding compute_decomposition
  high-is_process x_direction = ground arith
  high-is_process y_direction = ground arith
  high-is_process z_direction = ground arith

  module _ (dir : Direction) (a : ℕ) (w : Within (layers dir d) a) where
    -- A point of the first layer has no neighbour on that side where the grid starts there.
    pub low_edge : (a == 1 && not (is_process (low dir d))) ≡ (start dir d + (a - 1) == 0)
    low_edge =
        let s = start-index dir in
        let e = low-is_process dir in
        elim (first_or_later (processes dir p) (layers dir d) (index dir p r) (index-lt dir)) [
          | inl at_start ↦ ground arith
          | inr later ↦ ground arith
        ]

    pub high_edge :
        (a == layers dir d && not (is_process (high dir d)))
        ≡ (suc (start dir d + (a - 1)) == points dir p)
    high_edge =
        let s = start-index dir in
        let e = high-is_process dir in
        let n = all_points dir in
        elim (last_or_earlier (processes dir p) (layers dir d) (index dir p r) (index-lt dir)) [
          | inl last ↦ ground arith
          | inr earlier ↦ ground arith
        ]

    -- The points of a block are points of the grid.
    pub block_inside : start dir d + (a - 1) < points dir p
    block_inside =
        let s = start-index dir in
        let n = all_points dir in
        elim (last_or_earlier (processes dir p) (layers dir d) (index dir p r) (index-lt dir)) [
          | inl last ↦ omega arith
          | inr earlier ↦ omega arith
        ]
