-- ===== src/Stencil/Global.antt =====
-- The sums over the blocks of all processes are the sum over the grid.
use mtech.Prelude.{ℕ, ◌+◌, ◌*◌, ◌/◌, ◌<◌, ◌≡◌, sym, ap, ◌∙◌, arith}
use mtech.Prelude.Sums.{sum, sum_3, sum_3_ext, sum_3_blocks, sum_digits}
use native.Mathlib.Nat.{mul_comm, mul_assoc}
use mtech.Stencil.Decomposition.{Params, compute_decomposition}
use mtech.Stencil.Place.{place, IsPassed}
use mtech.Stencil.Blocks.{block_size}
use mtech.Stencil.Neighbors.{starts}

module _ (p : Params) (size : ℕ) (ok : IsPassed p size) (g : ℕ → ℕ → ℕ → ℕ) where
  abbrev block_sum : ℕ → ℕ
  block_sum r =
      let d = compute_decomposition p r in
      sum_3 d.sub_nx d.sub_ny d.sub_nz (λ x y z. g (d.start_x + x) (d.start_y + y) (d.start_z + z))

  abbrev m_x : ℕ
  m_x = p.nx / p.px

  abbrev m_y : ℕ
  m_y = p.ny / p.py

  abbrev m_z : ℕ
  m_z = p.nz / p.pz

  block_sum-place :
      (x y z : ℕ)
      → x < p.px
      → y < p.py
      → block_sum (place p x y z)
        ≡ sum_3 m_x m_y m_z (λ u v w. g (x * m_x + u) (y * m_y + v) (z * m_z + w))
  unfolding compute_decomposition
  block_sum-place x y z hx hy =
      let (sx, sy, sz) = starts p x y z hx hy in
      sum_3_ext m_x m_y m_z _ _ (λ u v w hu hv hw. cc (sx, sy, sz))

  rank_place : (x y z : ℕ) → (z * p.py + y) * p.px + x ≡ place p x y z
  unfolding place
  rank_place x y z =
      let row : z * p.py + y ≡ y + p.py * z = omega (arith, mul_comm z p.py) in
      omega (arith, mul_comm (z * p.py + y) p.px, ap (λ q. p.px * q) row)

  ranks : size ≡ p.pz * p.py * p.px
  ranks =
      sym ok.count
      ∙ (mul_comm (p.px * p.py) p.pz
          ∙ (ap (λ q. p.pz * q) (mul_comm p.px p.py) ∙ sym (mul_assoc p.pz p.py p.px)))

  pub sum-blocks_lem : sum size block_sum ≡ sum_3 p.nx p.ny p.nz g
  sum-blocks_lem =
      let digits = sum_digits p.px p.py p.pz block_sum in
      let places =
        sum_3_ext p.px p.py p.pz (λ x y z. block_sum ((z * p.py + y) * p.px + x))
          (λ x y z. sum_3 m_x m_y m_z (λ u v w. g (x * m_x + u) (y * m_y + v) (z * m_z + w)))
          (λ x y z hx hy hz. ap block_sum (rank_place x y z) ∙ block_sum-place x y z hx hy) in
      let whole = sum_3_blocks p.px p.py p.pz m_x m_y m_z g in
      let nx = block_size p.nx p.px ok.some_x ok.whole_x in
      let ny = block_size p.ny p.py ok.some_y ok.whole_y in
      let nz = block_size p.nz p.pz ok.some_z ok.whole_z in
      ap (λ n. sum n block_sum) ranks ∙ (digits ∙ (places ∙ (sym whole ∙ cc (nx, ny, nz))))
