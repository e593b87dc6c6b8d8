-- ===== src/Prelude/Bits.antt =====
-- Numbers by their binary digits: operations digit by digit on a number of digits.
use Prim.Native.Nat.{ℕ, zero, suc, ◌+◌, ◌*◌, ◌/◌, ◌%◌, ◌^◌, ◌≤◌, ◌<◌}
use mathlib.Core.Path.{◌≡◌, refl, ap, ◌∙◌}
use mathlib.Core.Bool.{Bool, true, false, not, ◌&&◌, ◌||◌}
use native.Mathlib.Omega.{arith}
use native.Mathlib.Nat.{pow-suc, mul_assoc, zero-mul, one-mul}
use native.Mathlib.Decide.{ℕ_discrete}
use mtech.Prelude.Tests.{◌==◌, if◌then◌else◌}

unfoldable pub digit : ℕ → ℕ → ℕ
digit zero n = n % 2
digit (suc i) n = digit i (n / 2)

abbrev truth : ℕ → Bool
truth d = d == 1

-- The operation on truth values, on the first `w` digits.
unfoldable pub bitwise : (Bool → Bool → Bool) → ℕ → ℕ → ℕ → ℕ
bitwise op zero a b = 0
bitwise op (suc w) a b =
    (if op (truth (a % 2)) (truth (b % 2)) then 1 else 0) + 2 * bitwise op w (a / 2) (b / 2)

abbrev pub differ : Bool → Bool → Bool
differ true b = not b
differ false b = b

abbrev pub both : Bool → Bool → Bool
both a b = a && b

abbrev pub either : Bool → Bool → Bool
either a b = a || b

head_digit : (c : Bool) (m : ℕ) → ((if c then 1 else 0) + 2 * m) % 2 ≡ (if c then 1 else 0)
head_digit c m = ground arith

tail_digits : (c : Bool) (m : ℕ) → ((if c then 1 else 0) + 2 * m) / 2 ≡ m
tail_digits c m = ground arith

pub digit-bitwise :
    (op : Bool → Bool → Bool) (w i a b : ℕ)
    → i < w
    → digit i (bitwise op w a b) ≡ (if op (truth (digit i a)) (truth (digit i b)) then 1 else 0)
unfolding digit bitwise
digit-bitwise op zero i a b h = absurd (omega arith)
digit-bitwise op (suc w) zero a b h = head_digit _ _
digit-bitwise op (suc w) (suc i) a b h =
    ap (digit i) (tail_digits _ _) ∙ digit-bitwise op w i (a / 2) (b / 2) (omega arith)

pub digit-zero : (i : ℕ) → digit i 0 ≡ 0
unfolding digit
digit-zero zero = refl
digit-zero (suc i) = digit-zero i

pub digit-pow : (i k : ℕ) → digit i (2 ^ k) ≡ (if i == k then 1 else 0)
unfolding digit
digit-pow zero zero = refl
digit-pow (suc i) zero = digit-zero i ∙ ground arith
digit-pow zero (suc k) = let e = pow-suc 2 k in ground arith
digit-pow (suc i) (suc k) =
    let e : 2 ^ suc k / 2 ≡ 2 ^ k = omega (arith, pow-suc 2 k) in
    ap (digit i) e ∙ (digit-pow i k ∙ ground arith)

pub digit-le : (i n : ℕ) → digit i n ≤ 1
unfolding digit
digit-le zero n = omega arith
digit-le (suc i) n = digit-le i (n / 2)

both-zero : (w a : ℕ) → bitwise both w a 0 ≡ 0
unfolding bitwise
both-zero zero a = refl
both-zero (suc w) a = let rest = both-zero w (a / 2) in ground arith

-- A mask of one digit leaves that digit.
pub both-pow : (w k a : ℕ) → k < w → bitwise both w a (2 ^ k) ≡ digit k a * 2 ^ k
unfolding bitwise digit
both-pow zero k a h = absurd (omega arith)
both-pow (suc w) zero a h = let rest = both-zero w (a / 2) in ground arith
both-pow (suc w) (suc k) a h =
    let e : 2 ^ suc k / 2 ≡ 2 ^ k = omega (arith, pow-suc 2 k) in
    let odd : 2 ^ suc k % 2 ≡ 0 = omega (arith, pow-suc 2 k) in
    let rest = ap (bitwise both w (a / 2)) e ∙ both-pow w k (a / 2) (omega arith) in
    let power = ap (λ n. digit k (a / 2) * n) (pow-suc 2 k) in
    let product = mul_assoc (digit k (a / 2)) (2 ^ k) 2 in ground arith

power_pos : (k : ℕ) → 0 < 2 ^ k
power_pos zero = omega arith
power_pos (suc k) = omega (arith, power_pos k, pow-suc 2 k)

-- A flag of a number that has only this digit is set where the digit is.
pub both-flag : (w k a : ℕ) → k < w → (bitwise both w a (2 ^ k) == 0) ≡ (digit k a == 0)
both-flag w k a h =
    let e = both-pow w k a h in
    let small = digit-le k a in
    let some_power = power_pos k in
    elim (ℕ_discrete (digit k a) 0) [
      | yes no_digit ↦ let none = ap (λ d. d * 2 ^ k) no_digit ∙ zero-mul (2 ^ k) in ground arith
      | no some_digit ↦
          let one : digit k a ≡ 1 = omega arith in
          let power = ap (λ d. d * 2 ^ k) one ∙ one-mul (2 ^ k) in ground arith
    ]
