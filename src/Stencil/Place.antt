-- ===== src/Stencil/Place.antt =====
-- Ranks and their places in the grid of processes.
use mtech.Prelude.{ℕ, ◌+◌, ◌*◌, ◌/◌, ◌%◌, ◌<◌, ◌≡◌, sym, ap, ◌∙◌, arith}
use native.Mathlib.Nat.{
  add-mul-mod_self_left, add-mul-div_left, mod-eq_of_lt, div-eq_of_lt, div-div-eq-div-mul, mod-lt,
  mod-add-div, div-lt_iff_lt-mul, mul-pos, mul_comm,
}
use mtech.Stencil.Decomposition.{Params, Check, check}

-- The rank of the process at a place.
unfoldable pub place : Params → ℕ → ℕ → ℕ → ℕ
place p x y z = x + p.px * (y + p.py * z)

module _ (p : Params) (x y z : ℕ) (hx : x < p.px) (hy : y < p.py) where
  hx-pos : 0 < p.px
  hx-pos = omega arith

  hy-pos : 0 < p.py
  hy-pos = omega arith

  pub place-mod : place p x y z % p.px ≡ x
  unfolding place
  place-mod = add-mul-mod_self_left x p.px (y + p.py * z) ∙ mod-eq_of_lt hx

  place-div : place p x y z / p.px ≡ y + p.py * z
  unfolding place
  place-div = omega (arith, add-mul-div_left x (y + p.py * z) (hx-pos), div-eq_of_lt hx)

  pub place-div_mod : place p x y z / p.px % p.py ≡ y
  place-div_mod = ap (λ q. q % p.py) place-div ∙ (add-mul-mod_self_left y p.py z ∙ mod-eq_of_lt hy)

  pub place-div_div : place p x y z / (p.px * p.py) ≡ z
  place-div_div =
      sym (div-div-eq-div-mul (place p x y z) p.px p.py)
      ∙ (ap (λ q. q / p.py) place-div ∙ omega (arith, add-mul-div_left y z hy-pos, div-eq_of_lt hy))

-- What the tests of the arguments give.
pub record IsPassed (p : Params) (size : ℕ) : Type 0 where
  pub count : p.px * p.py * p.pz ≡ size
  pub some_x : 0 < p.px
  pub some_y : 0 < p.py
  pub some_z : 0 < p.pz
  pub whole_x : p.nx % p.px ≡ 0
  pub whole_y : p.ny % p.py ≡ 0
  pub whole_z : p.nz % p.pz ≡ 0

pub check-IsPassed : (p : Params) (size : ℕ) → check p size ≡ Check.passed → IsPassed p size
unfolding check
check-IsPassed p size ok = record {
  count = ground arith;
  some_x = ground arith;
  some_y = ground arith;
  some_z = ground arith;
  whole_x = ground arith;
  whole_y = ground arith;
  whole_z = ground arith;
}

-- Every rank below PX * PY * PZ has a place.
pub rank-place :
    (p : Params) (size rank : ℕ)
    → IsPassed p size
    → rank < size
    → (x : ℕ) × (y : ℕ) × (z : ℕ) × (x < p.px) × (y < p.py) × (z < p.pz) × (rank ≡ place p x y z)
unfolding place
rank-place p size rank ok h =
    let low = mod-add-div rank p.px in
    let high = mod-add-div (rank / p.px) p.py in
    let both = div-div-eq-div-mul rank p.px p.py in
    let z = rank / (p.px * p.py) in
    let whole : rank / p.px % p.py + p.py * z ≡ rank / p.px =
      ap (λ q. rank / p.px % p.py + p.py * q) (sym both) ∙ high in
    (
      rank % p.px,
      rank / p.px % p.py,
      z,
      mod-lt rank ok.some_x,
      mod-lt (rank / p.px) ok.some_y,
      (div-lt_iff_lt-mul (mul-pos ok.some_x ok.some_y)).1
          (omega (arith, h, ok.count, mul_comm p.pz (p.px * p.py))),
      sym (ap (λ q. rank % p.px + p.px * q) whole ∙ low),
    )
