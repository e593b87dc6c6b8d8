-- ===== src/Stencil/Neighbors.antt =====
-- The neighbours of a process are those whose blocks adjoin, and know each other as such.
use mtech.Prelude.{ℕ, suc, ◌+◌, ◌-◌, ◌*◌, ◌/◌, ◌<◌, ◌≡◌, refl, sym, ap, ◌∙◌, some, arith}
use native.Mathlib.Nat.{suc-mul, mul-suc, mul-add}
use mtech.Stencil.Decomposition.{Params, Decomposition, compute_decomposition, Check, check}
use mtech.Stencil.Place.{
  place, place-mod, place-div_mod, place-div_div, IsPassed, check-IsPassed, rank-place,
}
use mtech.Stencil.Blocks.{place-lt}

module _ (p : Params) (x y z : ℕ) (hx : x < p.px) (hy : y < p.py) where
  pub starts :
      let d = compute_decomposition p (place p x y z) in
      (d.start_x ≡ x * (p.nx / p.px))
      × (d.start_y ≡ y * (p.ny / p.py))
      × (d.start_z ≡ z * (p.nz / p.pz))
  unfolding compute_decomposition
  starts = (
    ap (λ q. q * (p.nx / p.px)) (place-mod p x y z hx hy),
    ap (λ q. q * (p.ny / p.py)) (place-div_mod p x y z hx hy),
    ap (λ q. q * (p.nz / p.pz)) (place-div_div p x y z hx hy),
  )

  pub sizes :
      (r : ℕ)
      → let d = compute_decomposition p r in
        (d.sub_nx ≡ p.nx / p.px) × (d.sub_ny ≡ p.ny / p.py) × (d.sub_nz ≡ p.nz / p.pz)
  unfolding compute_decomposition
  sizes r = (refl, refl, refl)

  pub place-right : place p (suc x) y z ≡ place p x y z + 1
  unfolding place
  place-right = omega arith

  pub place-up : place p x (suc y) z ≡ place p x y z + p.px
  unfolding place
  place-up = omega (arith, mul-suc p.px (y + p.py * z))

  right-place :
      (r : ℕ)
      → (compute_decomposition p (place p x y z)).right ≡ some r
      → (suc x < p.px) × (r ≡ place p (suc x) y z)
  unfolding compute_decomposition place
  right-place r h = let e = place-mod p x y z hx hy in (ground arith, ground arith)

  left-place : 0 < x → (compute_decomposition p (place p x y z)).left ≡ some (place p x y z - 1)
  unfolding compute_decomposition place
  left-place h = let e = place-mod p x y z hx hy in ground arith

  up-place :
      (r : ℕ)
      → (compute_decomposition p (place p x y z)).up ≡ some r
      → (suc y < p.py) × (r ≡ place p x (suc y) z)
  unfolding compute_decomposition place
  up-place r h =
      let e = place-div_mod p x y z hx hy in
      let m = mul-suc p.px (y + p.py * z) in (ground arith, ground arith)

  down-place : 0 < y → (compute_decomposition p (place p x y z)).down ≡ some (place p x y z - p.px)
  unfolding compute_decomposition place
  down-place h = let e = place-div_mod p x y z hx hy in ground arith

  pub place-back : place p x y (suc z) ≡ place p x y z + p.px * p.py
  unfolding place
  place-back =
      let further : y + p.py * suc z ≡ y + p.py * z + p.py = omega (arith, mul-suc p.py z) in
      omega (arith, ap (λ q. p.px * q) further, mul-add p.px (y + p.py * z) p.py)

  back-place :
      z < p.pz
      → (r : ℕ) → (compute_decomposition p (place p x y z)).back ≡ some r
      → (suc z < p.pz) × (r ≡ place p x y (suc z))
  unfolding compute_decomposition
  back-place hz r h =
      let e = place-div_div p x y z hx hy in let m = place-back in (ground arith, ground arith)

  front-place :
      0 < z → (compute_decomposition p (place p x y z)).front ≡ some (place p x y z - p.px * p.py)
  unfolding compute_decomposition
  front-place h = let e = place-div_div p x y z hx hy in ground arith

-- The two blocks are one behind the other on the x axis, the y axis or the z axis.
pub record FollowsX (d d' : Decomposition) : Type 0 where
  pub x : d'.start_x ≡ d.start_x + d.sub_nx
  pub y : d'.start_y ≡ d.start_y
  pub z : d'.start_z ≡ d.start_z

pub record FollowsY (d d' : Decomposition) : Type 0 where
  pub x : d'.start_x ≡ d.start_x
  pub y : d'.start_y ≡ d.start_y + d.sub_ny
  pub z : d'.start_z ≡ d.start_z

pub record FollowsZ (d d' : Decomposition) : Type 0 where
  pub x : d'.start_x ≡ d.start_x
  pub y : d'.start_y ≡ d.start_y
  pub z : d'.start_z ≡ d.start_z + d.sub_nz

module _ (p : Params) (size : ℕ) (ok : IsPassed p size) (x y z : ℕ) (hx : x < p.px) (hy : y < p.py)
    (hz : z < p.pz) where
  right-mutual :
      (r : ℕ)
      → let d = compute_decomposition p (place p x y z) in
        d.right ≡ some r
        → (r < size)
          × ((compute_decomposition p r).left ≡ some (place p x y z))
          × FollowsX d (compute_decomposition p r)
  right-mutual r h =
      let (inside, e) = right-place p x y z hx hy r h in
      let (sx, sy, sz) = starts p x y z hx hy in
      let (tx, ty, tz) = starts p (suc x) y z inside hy in
      let (nx, ny, nz) = sizes p x y z hx hy (place p x y z) in
      rw e (
        place-lt p size ok (suc x) y z inside hy hz,
        left-place p (suc x) y z inside hy (omega arith)
            ∙ ap some (omega (arith, place-right p x y z hx hy)),
        record {
          x = omega (arith, sx, tx, nx, suc-mul x (p.nx / p.px));
          y = ty ∙ sym sy;
          z = tz ∙ sym sz;
        },
      )

  up-mutual :
      (r : ℕ)
      → let d = compute_decomposition p (place p x y z) in
        d.up ≡ some r
        → (r < size)
          × ((compute_decomposition p r).down ≡ some (place p x y z))
          × FollowsY d (compute_decomposition p r)
  up-mutual r h =
      let (inside, e) = up-place p x y z hx hy r h in
      let (sx, sy, sz) = starts p x y z hx hy in
      let (tx, ty, tz) = starts p x (suc y) z hx inside in
      let (nx, ny, nz) = sizes p x y z hx hy (place p x y z) in
      rw e (
        place-lt p size ok x (suc y) z hx inside hz,
        down-place p x (suc y) z hx inside (omega arith)
            ∙ ap some (omega (arith, place-up p x y z hx hy)),
        record {
          x = tx ∙ sym sx;
          y = omega (arith, sy, ty, ny, suc-mul y (p.ny / p.py));
          z = tz ∙ sym sz;
        },
      )

  back-mutual :
      (r : ℕ)
      → let d = compute_decomposition p (place p x y z) in
        d.back ≡ some r
        → (r < size)
          × ((compute_decomposition p r).front ≡ some (place p x y z))
          × FollowsZ d (compute_decomposition p r)
  back-mutual r h =
      let (inside, e) = back-place p x y z hx hy hz r h in
      let (sx, sy, sz) = starts p x y z hx hy in
      let (tx, ty, tz) = starts p x y (suc z) hx hy in
      let (nx, ny, nz) = sizes p x y z hx hy (place p x y z) in
      rw e (
        place-lt p size ok x y (suc z) hx hy inside,
        front-place p x y (suc z) hx hy (omega arith)
            ∙ ap some (omega (arith, place-back p x y z hx hy)),
        record {
          x = tx ∙ sym sx;
          y = ty ∙ sym sy;
          z = omega (arith, sz, tz, nz, suc-mul z (p.nz / p.pz));
        },
      )

pub compute_decomposition-mutual :
    (p : Params) (size rank r : ℕ)
    → check p size ≡ Check.passed
    → rank < size
    → let d = compute_decomposition p rank in
      let d' = compute_decomposition p r in
      (d.right ≡ some r → (r < size) × (d'.left ≡ some rank) × FollowsX d d')
      × (d.up ≡ some r → (r < size) × (d'.down ≡ some rank) × FollowsY d d')
      × (d.back ≡ some r → (r < size) × (d'.front ≡ some rank) × FollowsZ d d')
compute_decomposition-mutual p size rank r passed h =
    let ok = check-IsPassed p size passed in
    let (x, y, z, hx, hy, hz, e) = rank-place p size rank ok h in
    rw e (
      right-mutual p size ok x y z hx hy hz r,
      up-mutual p size ok x y z hx hy hz r,
      back-mutual p size ok x y z hx hy hz r,
    )
