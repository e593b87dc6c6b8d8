-- ===== src/Prelude/Sums.antt =====
-- Sums of the first numbers of a sequence, and how they are cut and swapped.
use Prim.Native.Nat.{ℕ, zero, suc, ◌+◌, ◌*◌, ◌≤◌, ◌<◌}
use mathlib.Core.Path.{◌≡◌, refl, sym, ap, ◌∙◌}
use native.Mathlib.Omega.{arith}
use native.Mathlib.Nat.{suc-mul, zero-mul}

unfoldable pub sum : ℕ → (ℕ → ℕ) → ℕ
sum zero f = 0
sum (suc n) f = sum n f + f n

pub sum_ext : (n : ℕ) (f g : ℕ → ℕ) → ((i : ℕ) → i < n → f i ≡ g i) → sum n f ≡ sum n g
unfolding sum
sum_ext zero f g same = refl
sum_ext (suc n) f g same =
    omega (arith, same n (omega arith), sum_ext n f g (λ i below. same i (omega arith)))

sum-zero : (n : ℕ) → sum n (λ i. 0) ≡ 0
unfolding sum
sum-zero zero = refl
sum-zero (suc n) = omega (arith, sum-zero n)

sum-add : (n : ℕ) (f g : ℕ → ℕ) → sum n (λ i. f i + g i) ≡ sum n f + sum n g
unfolding sum
sum-add zero f g = refl
sum-add (suc n) f g = omega (arith, sum-add n f g)

-- A sum of sums in the other order.
pub sum_swap :
    (n m : ℕ) (f : ℕ → ℕ → ℕ) → sum n (λ i. sum m (f i)) ≡ sum m (λ j. sum n (λ i. f i j))
unfolding sum
sum_swap zero m f = sym (sum-zero m)
sum_swap (suc n) m f =
    ap (λ s. s + sum m (f n)) (sum_swap n m f) ∙ sym (sum-add m (λ j. sum n (λ i. f i j)) (f n))

sum-append : (n m : ℕ) (f : ℕ → ℕ) → sum (n + m) f ≡ sum n f + sum m (λ i. f (n + i))
unfolding sum
sum-append n zero f =
    let none_more : sum (n + 0) f ≡ sum n f = ap (λ k. sum k f) {y = n} (omega arith) in omega arith
sum-append n (suc m) f =
    let one_more : sum (n + suc m) f ≡ sum (suc (n + m)) f =
      ap (λ k. sum k f) {y = suc (n + m)} (omega arith) in
    omega (arith, sum-append n m f)

-- A sum over `k` blocks of `m`.
pub sum_blocks : (k m : ℕ) (f : ℕ → ℕ) → sum (k * m) f ≡ sum k (λ q. sum m (λ i. f (q * m + i)))
unfolding sum
sum_blocks zero m f = ap (λ n. sum n f) (zero-mul m)
sum_blocks (suc k) m f =
    ap (λ n. sum n f) (suc-mul k m)
    ∙ (sum-append (k * m) m f ∙ ap (λ s. s + sum m (λ i. f (k * m + i))) (sum_blocks k m f))

-- A bound on every number bounds the sum.
pub sum_le : (n b : ℕ) (f : ℕ → ℕ) → ((i : ℕ) → i < n → f i ≤ b) → sum n f ≤ n * b
unfolding sum
sum_le zero b f bound = omega arith
sum_le (suc n) b f bound =
    omega
      (arith, bound n (omega arith), sum_le n b f (λ i below. bound i (omega arith)), suc-mul n b)

-- Sums over three indices.
unfoldable pub sum_3 : ℕ → ℕ → ℕ → (ℕ → ℕ → ℕ → ℕ) → ℕ
unfolding sum
sum_3 a b c f = sum a (λ x. sum b (λ y. sum c (f x y)))

pub sum_3_ext :
    (a b c : ℕ) (f g : ℕ → ℕ → ℕ → ℕ)
    → ((x y z : ℕ) → x < a → y < b → z < c → f x y z ≡ g x y z)
    → sum_3 a b c f ≡ sum_3 a b c g
unfolding sum_3
sum_3_ext a b c f g same =
    sum_ext a _ _ (λ x hx. sum_ext b _ _ (λ y hy. sum_ext c _ _ (λ z hz. same x y z hx hy hz)))

sum_3_reverse : (a b c : ℕ) (f : ℕ → ℕ → ℕ → ℕ) → sum_3 c b a (λ z y x. f x y z) ≡ sum_3 a b c f
unfolding sum_3
sum_3_reverse a b c f =
    sum_ext c _ _ (λ z hz. sum_swap b a (λ y x. f x y z))
    ∙ (sum_swap c a (λ z x. sum b (λ y. f x y z))
        ∙ sum_ext a _ _ (λ x hx. sum_swap c b (λ z y. f x y z)))

-- A sum over the points of a grid by the blocks of it.
pub sum_3_blocks :
    (a b c i j k : ℕ) (f : ℕ → ℕ → ℕ → ℕ)
    → sum_3 (a * i) (b * j) (c * k) f
      ≡ sum_3 a b c (λ x y z. sum_3 i j k (λ u v w. f (x * i + u) (y * j + v) (z * k + w)))
unfolding sum_3
sum_3_blocks a b c i j k f =
    sum_blocks a i _
    ∙ sum_ext a _ _ (λ x hx.
      sum_ext i _ _ (λ u hu.
        sum_blocks b j _
        ∙ sum_ext b _ _ (λ y hy.
          sum_ext j _ _ (λ v hv. sum_blocks c k (f (x * i + u) (y * j + v))) ∙ sum_swap j c _))
      ∙ (sum_swap i b _ ∙ sum_ext b _ _ (λ y hy. sum_swap i c _)))

-- A sum over the numbers whose digits in the bases `a` and `b` are the first two indices.
pub sum_digits :
    (a b c : ℕ) (f : ℕ → ℕ) → sum (c * b * a) f ≡ sum_3 a b c (λ x y z. f ((z * b + y) * a + x))
unfolding sum_3
sum_digits a b c f =
    sum_blocks (c * b) a f
    ∙ (sum_blocks c b (λ q. sum a (λ x. f (q * a + x)))
        ∙ sum_3_reverse a b c (λ x y z. f ((z * b + y) * a + x)))

pub sum_3_le :
    (a b c : ℕ) (f : ℕ → ℕ → ℕ → ℕ)
    → ((x y z : ℕ) → x < a → y < b → z < c → f x y z ≤ 1)
    → sum_3 a b c f ≤ a * (b * (c * 1))
unfolding sum_3
sum_3_le a b c f bound =
    sum_le a (b * (c * 1)) _
      (λ x hx. sum_le b (c * 1) _ (λ y hy. sum_le c 1 _ (λ z hz. bound x y z hx hy hz)))
