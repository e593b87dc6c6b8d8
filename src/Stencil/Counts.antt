-- ===== src/Stencil/Counts.antt =====
-- What the loops of `find_minima_maxima` add up to.
use mtech.Prelude.{
  ℕ, zero, suc, ◌+◌, ◌-◌, ◌<◌, ◌≡◌, ap, ◌∙◌, Bool, true, ◌&&◌, if◌then◌else◌, arith,
}
use mtech.Prelude.Sums.{sum, sum_3}
use mtech.Stencil.Decomposition.{Params, Decomposition, compute_decomposition, Check, check}
use mtech.Stencil.Loops.{loop, for_2d, for_3d, Within}
use mtech.Stencil.Cube.{Cube, Buffer}
use mtech.Stencil.Exchange.{Mpi, exchange_boundary_data}
use mtech.Stencil.Halo.{Delivers, HoldsBlock}
use mtech.Stencil.Extrema.{Floats, faces, Found, visit, find_minima_maxima}
use mtech.Stencil.Scan.{clear, at_least, look_around_lem}
use mtech.Stencil.Beside.{strict, clear-strict}

abbrev pub bit : Bool → ℕ
bit b = if b then 1 else 0

module _ {ℓ} {S : Type ℓ} (count : S → ℕ) where
  -- Rounds that add a number each.
  loop_count :
      (n : ℕ) (body : ℕ → S → S) (g : ℕ → ℕ)
      → ((i : ℕ) (s : S) → Within n i → count (body i s) ≡ count s + g (i - 1))
      → (s : S) → count (loop n body s) ≡ count s + sum n g
  unfolding loop sum
  loop_count zero body g one s = omega arith
  loop_count (suc n) body g one s =
      let before = loop_count n body g (λ i t w. one i t (omega arith)) s in
      let last = one (suc n) (loop n body s) (omega arith) in
      let round : g (suc n - 1) ≡ g n = ap g {y = n} (omega arith) in omega arith

  for_3d_count :
      (n m k : ℕ) (body : ℕ → ℕ → ℕ → S → S) (g : ℕ → ℕ → ℕ → ℕ)
      → ((x y z : ℕ) (s : S)
          → Within n x
          → Within m y
          → Within k z
          → count (body x y z s) ≡ count s + g (x - 1) (y - 1) (z - 1))
      → (s : S) → count (for_3d n m k body s) ≡ count s + sum_3 n m k g
  unfolding for_3d for_2d sum_3
  for_3d_count n m k body g one =
      loop_count n _ _ (λ x t wx.
        loop_count m _ _ (λ y r wy. loop_count k _ _ (λ z q wz. one x y z q wx wy wz) r) t)

module _ {R : Type 0} (floats : Floats R) (d : Decomposition) (c : Cube R) (x y z : ℕ) where
  -- A point counts where no face speaks against it.
  visit-counts :
      (found : Found R)
      → ((visit floats d c x y z found).minima_count
          ≡ found.minima_count + bit (clear d c x y z floats.le faces))
        × ((visit floats d c x y z found).maxima_count
            ≡ found.maxima_count + bit (clear d c x y z (at_least floats) faces))
  unfolding visit
  visit-counts found =
      let (low, high) =
        look_around_lem floats d c x y z faces (record { is_min = true; is_max = true }) in
      (marked _ _ _ low, marked _ _ _ high)
    where
      marked : (b b' : Bool) (n : ℕ) → b ≡ (true && b') → (if b then suc n else n) ≡ n + bit b'
      marked b b' n e = ground arith

module _ {R : Type 0} (floats : Floats R) (p : Params) (mpi : Mpi R) (size : ℕ)
    (passed : check p size ≡ Check.passed) (mpi_ok : Delivers mpi) (blank : Buffer R)
    (field : Cube R) (world : ℕ → Cube R)
    (blocks : (r : ℕ) → r < size → HoldsBlock field (compute_decomposition p r) (world r)) (r : ℕ)
    (inside : r < size) where
  abbrev d : Decomposition
  d = compute_decomposition p r

  abbrev E : Cube R
  E = exchange_boundary_data p mpi blank world r

  -- The points of a block that are strict.
  abbrev pub in_block : (R → R → Bool) → ℕ
  in_block compare =
      sum_3 d.sub_nx d.sub_ny d.sub_nz
        (λ x y z. bit (strict compare p field (d.start_x + x) (d.start_y + y) (d.start_z + z)))

  pub find_minima_maxima-counts :
      (found : Found R)
      → let after = find_minima_maxima floats d E found in
        (after.minima_count ≡ found.minima_count + in_block floats.le)
        × (after.maxima_count ≡ found.maxima_count + in_block (at_least floats))
  unfolding find_minima_maxima
  find_minima_maxima-counts found = (
    for_3d_count (λ s. s.minima_count) d.sub_nx d.sub_ny d.sub_nz (visit floats d E) _
        (λ x y z s wx wy wz.
          (visit-counts floats d E x y z s).0
          ∙ ap (λ b. s.minima_count + bit b)
              (clear-strict p mpi size passed mpi_ok blank field world blocks r inside floats.le x y
                z wx wy wz))
        found,
    for_3d_count (λ s. s.maxima_count) d.sub_nx d.sub_ny d.sub_nz (visit floats d E) _
        (λ x y z s wx wy wz.
          (visit-counts floats d E x y z s).1
          ∙ ap (λ b. s.maxima_count + bit b)
              (clear-strict p mpi size passed mpi_ok blank field world blocks r inside
                (at_least floats) x y z wx wy wz))
        found,
  )
