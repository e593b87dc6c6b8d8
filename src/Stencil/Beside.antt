-- ===== src/Stencil/Beside.antt =====
-- What a process compares a point to is what is beside it in the global field.
use mtech.Prelude.{
  ℕ, suc, ◌+◌, ◌-◌, ◌<◌, ◌≡◌, refl, Bool, true, false, not, ◌&&◌, ◌||◌, ◌==◌, Option, none, some,
  arith, ℕ_discrete,
}
use mtech.Stencil.Decomposition.{Params, Decomposition, compute_decomposition, Check, check}
use mtech.Stencil.Place.{IsPassed, check-IsPassed}
use mtech.Stencil.Loops.{Within}
use mtech.Stencil.Cube.{Cube, Buffer}
use mtech.Stencil.Exchange.{
  Direction, x_direction, y_direction, z_direction, cell, layers, rows, width, low, high, Mpi,
  is_process, exchange_boundary_data,
}
use mtech.Stencil.Links.{start, row_start, width_start}
use mtech.Stencil.Halo.{
  Delivers, HoldsBlock, HoldsBlock-Shows, exchange-HoldsBlock, exchange-low, exchange-high,
}
use mtech.Stencil.Extrema.{faces}
use mtech.Stencil.Scan.{clear}
use mtech.Stencil.Edges.{points, low_edge, high_edge}

-- No point beside this one, within the grid, compares to it this way.
unfoldable pub strict : {R : Type 0} → (R → R → Bool) → Params → Cube R → ℕ → ℕ → ℕ → Bool
strict compare p field gx gy gz =
    let val = field gx gy gz in
    (gx == 0 || not (compare (field (gx - 1) gy gz) val))
    && ((suc gx == p.nx || not (compare (field (gx + 1) gy gz) val))
        && ((gy == 0 || not (compare (field gx (gy - 1) gz) val))
            && ((suc gy == p.ny || not (compare (field gx (gy + 1) gz) val))
                && ((gz == 0 || not (compare (field gx gy (gz - 1)) val))
                    && (suc gz == p.nz || not (compare (field gx gy (gz + 1)) val))))))

is_process-some : (o : Option ℕ) → is_process o ≡ true → (s : ℕ) × (o ≡ some s)
is_process-some none e = absurd (ground arith)
is_process-some (some s) e = (s, refl)

-- A comparison matters where there is a neighbour.
side :
    (skipped outside l l' : Bool)
    → skipped ≡ outside
    → (outside ≡ false → l ≡ l')
    → (skipped || not l) ≡ (outside || not l')
side skipped true l l' e same = ground arith
side skipped false l l' e same = let same' = same refl in ground arith

six :
    (a b c d e f a' b' c' d' e' f' : Bool)
    → a ≡ a'
    → b ≡ b'
    → c ≡ c'
    → d ≡ d'
    → e ≡ e'
    → f ≡ f'
    → (a && (b && (c && (d && (e && (f && true)))))) ≡ (a' && (b' && (c' && (d' && (e' && f')))))
six a b c d e f a' b' c' d' e' f' h1 h2 h3 h4 h5 h6 = ground arith

module _ {R : Type 0} (p : Params) (mpi : Mpi R) (size : ℕ) (passed : check p size ≡ Check.passed)
    (mpi_ok : Delivers mpi) (blank : Buffer R) (field : Cube R) (world : ℕ → Cube R)
    (blocks : (r : ℕ) → r < size → HoldsBlock field (compute_decomposition p r) (world r)) (r : ℕ)
    (inside : r < size) where
  abbrev d : Decomposition
  d = compute_decomposition p r

  abbrev E : Cube R
  E = exchange_boundary_data p mpi blank world r

  ok : IsPassed p size
  ok = check-IsPassed p size passed

  own : HoldsBlock field d E
  own = exchange-HoldsBlock p mpi size passed mpi_ok blank field world blocks r inside

  module _ (dir : Direction) (a u v : ℕ) (wa : Within (layers dir d) a) (wu : Within (rows dir d) u)
      (wv : Within (width dir d) v) where
    abbrev global : ℕ → R
    global g = cell dir field g (row_start dir d + (u - 1)) (width_start dir d + (v - 1))

    next_low :
        (start dir d + (a - 1) == 0) ≡ false
        → cell dir E (a - 1) u v ≡ global (start dir d + (a - 1) - 1)
    next_low inner = elim (ℕ_discrete a 1) [
      | yes e ↦
          let edge = low_edge p size ok r inside dir a wa in
          let (s, l) = is_process-some (low dir d) (ground arith) in
          let ghost =
            exchange-low p mpi size passed mpi_ok blank field world blocks r inside u v dir
              (omega arith) wu wv l in
          let at_a : a - 1 ≡ 0 = omega arith in
          let at_g : start dir d + (a - 1) - 1 ≡ start dir d - 1 = omega arith in
          cc (at_a, at_g, ghost)
      | no ne ↦
          let shown = HoldsBlock-Shows field d E own dir (a - 1) u v (omega arith) wu wv in
          let at_g : start dir d + (a - 1) - 1 ≡ start dir d + (a - 1 - 1) = omega arith in
          cc (at_g, shown)
    ]

    next_high :
        (suc (start dir d + (a - 1)) == points dir p) ≡ false
        → cell dir E (a + 1) u v ≡ global (start dir d + (a - 1) + 1)
    next_high inner = elim (ℕ_discrete a (layers dir d)) [
      | yes e ↦
          let edge = high_edge p size ok r inside dir a wa in
          let (s, l) = is_process-some (high dir d) (ground arith) in
          let ghost =
            exchange-high p mpi size passed mpi_ok blank field world blocks r inside u v dir
              (omega arith) wu wv l in
          let at_g : start dir d + (a - 1) + 1 ≡ start dir d + layers dir d = omega arith in
          cc (e, at_g, ghost)
      | no ne ↦
          let shown = HoldsBlock-Shows field d E own dir (a + 1) u v (omega arith) wu wv in
          let at_g : start dir d + (a - 1) + 1 ≡ start dir d + (a + 1 - 1) = omega arith in
          cc (at_g, shown)
    ]

    here : cell dir E a u v ≡ global (start dir d + (a - 1))
    here = HoldsBlock-Shows field d E own dir a u v wa wu wv

    module _ (compare : R → R → Bool) where
      low_side :
          (a == 1 && not (is_process (low dir d))
            || not (compare (cell dir E (a - 1) u v) (cell dir E a u v)))
          ≡ (start dir d + (a - 1) == 0
              || not
                  (compare (global (start dir d + (a - 1) - 1)) (global (start dir d + (a - 1)))))
      low_side =
          side _ _ _ _ (low_edge p size ok r inside dir a wa)
            (λ inner. let n = next_low inner in cc (n, here))

      high_side :
          (a == layers dir d && not (is_process (high dir d))
            || not (compare (cell dir E (a + 1) u v) (cell dir E a u v)))
          ≡ (suc (start dir d + (a - 1)) == points dir p
              || not
                  (compare (global (start dir d + (a - 1) + 1)) (global (start dir d + (a - 1)))))
      high_side =
          side _ _ _ _ (high_edge p size ok r inside dir a wa)
            (λ inner. let n = next_high inner in cc (n, here))

  pub clear-strict :
      (compare : R → R → Bool) (x y z : ℕ)
      → Within d.sub_nx x
      → Within d.sub_ny y
      → Within d.sub_nz z
      → clear d E x y z compare faces
        ≡ strict compare p field (d.start_x + (x - 1)) (d.start_y + (y - 1)) (d.start_z + (z - 1))
  unfolding strict
  clear-strict compare x y z wx wy wz =
      six _ _ _ _ _ _ _ _ _ _ _ _ (low_side x_direction x y z wx wy wz compare)
        (high_side x_direction x y z wx wy wz compare) (low_side y_direction y x z wy wx wz compare)
        (high_side y_direction y x z wy wx wz compare) (low_side z_direction z x y wz wx wy compare)
        (high_side z_direction z x y wz wx wy compare)
