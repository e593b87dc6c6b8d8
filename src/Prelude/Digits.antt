-- ===== src/Prelude/Digits.antt =====
-- Numbers by two digits, the second below the base.
use Prim.Native.Nat.{ℕ, suc, ◌+◌, ◌*◌, ◌/◌, ◌%◌, ◌<◌}
use mathlib.Core.Path.{◌≡◌, sym, ap, ◌∙◌}
use native.Mathlib.Omega.{arith}
use native.Mathlib.Nat.{
  mul-add-div_right, div-eq_of_lt, mul-add-mod_self_right, mod-eq_of_lt, mul-le-mul_right, suc-mul,
}

module _ (m q i : ℕ) (h : i < m) where
  pub quotient : (q * m + i) / m ≡ q
  quotient =
      omega (arith, mul-add-div_right {m = m} (omega arith) q i, div-eq_of_lt {n = i} {m = m} h)

  pub remainder : (q * m + i) % m ≡ i
  remainder = mul-add-mod_self_right q m i ∙ mod-eq_of_lt h

  pub digits-lt : (n : ℕ) → q < n → q * m + i < n * m
  digits-lt n below = omega (arith, mul-le-mul_right {m = suc q} {n = n} m below, suc-mul q m)

  pub digits_inj : (q' i' : ℕ) → i' < m → q * m + i ≡ q' * m + i' → (q ≡ q') × (i ≡ i')
  digits_inj q' i' h' e = (
    sym quotient
        ∙ (ap (λ n. n / m) e
            ∙ omega (
              arith,
              mul-add-div_right {m = m} (omega arith) q' i',
              div-eq_of_lt {n = i'} {m = m} h',
            )),
    sym remainder ∙ (ap (λ n. n % m) e ∙ (mul-add-mod_self_right q' m i' ∙ mod-eq_of_lt h')),
  )
