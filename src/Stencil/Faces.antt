-- ===== src/Stencil/Faces.antt =====
-- What packing a layer and unpacking a buffer do to single cells.
use mtech.Prelude.{
  ℕ, zero, suc, ◌+◌, ◌-◌, ◌*◌, ◌/◌, ◌<◌, ◌≡◌, refl, sym, ap, ◌∙◌, some, ◌&&◌, ◌==◌, if◌then◌else◌,
  arith, ℕ_discrete,
}
use mtech.Prelude.Family.{update}
use native.Mathlib.Nat.{mul-add-div_right, div-eq_of_lt, suc-mul, mul-le-mul_right}
use mtech.Stencil.Decomposition.{Params, Decomposition}
use mtech.Stencil.Loops.{Within, for_2d_keep, for_2d_reach}
use mtech.Stencil.Cube.{Cube, Buffer, flat}
use mtech.Stencil.Exchange.{
  Direction, x_direction, y_direction, z_direction, cell, put, layers, rows, width, low, high, Mpi,
  pack, fill_ghosts, unpack,
}

-- The row and the column of a cell of a face from its index.
flat-row : (m u v : ℕ) → Within m v → flat m u v / m ≡ u - 1
unfolding flat
flat-row m u v w = omega (
  arith,
  mul-add-div_right {m = m} (omega arith) (u - 1) (v - 1),
  div-eq_of_lt {n = v - 1} {m = m} (omega arith),
)

flat_inj :
    (m u v u' v' : ℕ)
    → 0 < u
    → 0 < u'
    → Within m v
    → Within m v'
    → flat m u v ≡ flat m u' v'
    → (u ≡ u') × (v ≡ v')
unfolding flat
flat_inj m u v u' v' hu hu' w w' e =
    let row : u - 1 ≡ u' - 1 = sym (flat-row m u v w) ∙ (ap (λ i. i / m) e ∙ flat-row m u' v' w') in
    let before = ap (λ i. i * m) row in (omega arith, omega arith)

pub flat-lt : (n m u v : ℕ) → Within n u → Within m v → flat m u v < n * m
unfolding flat
flat-lt n m zero v hu hv = absurd (omega arith)
flat-lt n m (suc u) v hu hv =
    let row = mul-le-mul_right {m = suc u} {n = n} m (omega arith) in
    omega (arith, row, suc-mul u m, ap (λ k. k * m) (u_back u))
  where
    u_back : (u : ℕ) → suc u - 1 ≡ u
    u_back u = omega arith

module _ {R : Type 0} where
  cell-put :
      (dir : Direction) (a u v : ℕ) (x : R) (c : Cube R) (a' u' v' : ℕ)
      → cell dir (put dir a u v x c) a' u' v'
        ≡ (if a == a' && (u == u' && v == v') then x else cell dir c a' u' v')
  cell-put x_direction a u v x c a' u' v' = refl
  cell-put y_direction a u v x c a' u' v' = ground arith
  cell-put z_direction a u v x c a' u' v' = ground arith

  -- A write keeps an entry, if it is elsewhere or of the same value.
  write_same : (b : Buffer R) (i j : ℕ) {x y : R} → (i ≡ j → x ≡ y) → b j ≡ y → update b i x j ≡ y
  write_same b i j h same = elim (ℕ_discrete i j) [
    | yes e ↦ let x_y = h e in ground arith
    | no ne ↦ ground arith
  ]

  module _ (p : Params) (mpi : Mpi R) (dir : Direction) (d : Decomposition) where
    pub pack_lem :
        (layer : ℕ) (c : Cube R) (blank : Buffer R) (u v : ℕ)
        → Within (rows dir d) u
        → Within (width dir d) v
        → pack p mpi dir d layer c blank (flat (width dir d) u v) ≡ cell dir c layer u v
    unfolding pack
    pack_lem layer c blank u v hu hv =
        for_2d_reach (λ buffer. buffer (flat (width dir d) u v) ≡ cell dir c layer u v) (rows dir d)
          (width dir d) _ u v hu hv (λ buffer. ground arith)
          (λ u' v' buffer hu' hv' same.
            write_same buffer _ _
              (λ e.
                let (eu, ev) = flat_inj (width dir d) u' v' u v hu'.0 hu.0 hv' hv e in cc (eu, ev))
              same)
          blank

    module _ (recv_low recv_high : Buffer R) (u' v' : ℕ) (c : Cube R) (u v : ℕ) where
      fill_ghosts-low :
          {s : ℕ}
          → low dir d ≡ some s
          → cell dir (fill_ghosts p mpi dir d recv_low recv_high u' v' c) 0 u v
            ≡ (if u' == u && v' == v then recv_low (flat (width dir d) u' v') else cell dir c 0 u v)
      unfolding fill_ghosts
      fill_ghosts-low l =
          let x = recv_low (flat (width dir d) u' v') in
          let y = recv_high (flat (width dir d) u' v') in
          let n = layers dir d + 1 in
          ground (
            arith,
            cell-put dir 0 u' v' x c 0 u v,
            cell-put dir n u' v' y (put dir 0 u' v' x c) 0 u v,
          )

      fill_ghosts-high :
          {s : ℕ}
          → high dir d ≡ some s
          → cell dir (fill_ghosts p mpi dir d recv_low recv_high u' v' c) (layers dir d + 1) u v ≡ (
              if u' == u && v' == v
              then recv_high (flat (width dir d) u' v')
              else cell dir c (layers dir d + 1) u v)
      unfolding fill_ghosts
      fill_ghosts-high l =
          let x = recv_low (flat (width dir d) u' v') in
          let y = recv_high (flat (width dir d) u' v') in
          let n = layers dir d + 1 in
          ground (
            arith,
            cell-put dir 0 u' v' x c n u v,
            cell-put dir n u' v' y (put dir 0 u' v' x c) n u v,
            cell-put dir n u' v' y c n u v,
          )

      fill_ghosts-inside :
          (a : ℕ)
          → Within (layers dir d) a
          → cell dir (fill_ghosts p mpi dir d recv_low recv_high u' v' c) a u v ≡ cell dir c a u v
      unfolding fill_ghosts
      fill_ghosts-inside a w =
          let x = recv_low (flat (width dir d) u' v') in
          let y = recv_high (flat (width dir d) u' v') in
          let n = layers dir d + 1 in
          ground (
            arith,
            cell-put dir 0 u' v' x c a u v,
            cell-put dir n u' v' y (put dir 0 u' v' x c) a u v,
            cell-put dir n u' v' y c a u v,
          )

    module _ (recv_low recv_high : Buffer R) (c : Cube R) (u v : ℕ) where
      -- Where there is a neighbour, the ghost cells of that side are what was received.
      pub unpack-low :
          {s : ℕ}
          → low dir d ≡ some s
          → Within (rows dir d) u
          → Within (width dir d) v
          → cell dir (unpack p mpi dir d recv_low recv_high c) 0 u v
            ≡ recv_low (flat (width dir d) u v)
      unfolding unpack
      unpack-low l hu hv =
          for_2d_reach (λ k. cell dir k 0 u v ≡ recv_low (flat (width dir d) u v)) (rows dir d)
            (width dir d) (fill_ghosts p mpi dir d recv_low recv_high) u v hu hv
            (λ k. ground (arith, fill_ghosts-low recv_low recv_high u v k u v l))
            (λ u' v' k hu' hv' same.
              ground (arith, fill_ghosts-low recv_low recv_high u' v' k u v l))
            c

      pub unpack-high :
          {s : ℕ}
          → high dir d ≡ some s
          → Within (rows dir d) u
          → Within (width dir d) v
          → cell dir (unpack p mpi dir d recv_low recv_high c) (layers dir d + 1) u v
            ≡ recv_high (flat (width dir d) u v)
      unfolding unpack
      unpack-high l hu hv =
          for_2d_reach (λ k. cell dir k (layers dir d + 1) u v ≡ recv_high (flat (width dir d) u v))
            (rows dir d) (width dir d) (fill_ghosts p mpi dir d recv_low recv_high) u v hu hv
            (λ k. ground (arith, fill_ghosts-high recv_low recv_high u v k u v l))
            (λ u' v' k hu' hv' same.
              ground (arith, fill_ghosts-high recv_low recv_high u' v' k u v l))
            c

      -- No other layer changes.
      pub unpack-inside :
          (a : ℕ)
          → Within (layers dir d) a
          → cell dir (unpack p mpi dir d recv_low recv_high c) a u v ≡ cell dir c a u v
      unfolding unpack
      unpack-inside a w =
          for_2d_keep (λ k. cell dir k a u v ≡ cell dir c a u v) (rows dir d) (width dir d)
            (fill_ghosts p mpi dir d recv_low recv_high)
            (λ u' v' k hu' hv' same. fill_ghosts-inside recv_low recv_high u' v' k u v a w ∙ same) c
            refl
