-- ===== src/Prefix/Reference.antt =====
-- `ref_version` of cs610/assignment3/problem2/problem2.cpp.
use mtech.Prelude.{ℕ, zero, suc, ◌+◌, ◌%◌, ◌^◌, ◌<◌, ◌≡◌, refl, ap, ◌∙◌, arith}
use mtech.Prelude.Family.{update}

abbrev pub word : ℕ
word = 2 ^ 32

abbrev pub array_size : ℕ
array_size = 2 ^ 16

abbrev pub Array : Type 0
Array = ℕ → ℕ

-- `tmp` and `dest` after the first iterations. An `int` wraps around.
unfoldable pub ref_loop : ℕ → Array → Array → ℕ × Array
ref_loop zero source dest = (0, dest)
ref_loop (suc i) source dest =
    let (tmp, done) = ref_loop i source dest in
    let next = (tmp + source i) % word in (next, update done i next)

unfoldable pub ref_version : Array → Array → ℕ × Array
ref_version source dest = ref_loop array_size source dest

-- The sum of the first entries, in 32 bits.
unfoldable pub prefix : ℕ → Array → ℕ
prefix zero source = 0
prefix (suc n) source = (prefix n source + source n) % word

pub ref_loop-prefix :
    (n : ℕ) (source dest : Array)
    → ((ref_loop n source dest).0 ≡ prefix n source)
      × ((i : ℕ) → i < n → (ref_loop n source dest).1 i ≡ prefix (suc i) source)
unfolding ref_loop prefix
ref_loop-prefix zero source dest = (refl, λ i h. absurd (omega arith))
ref_loop-prefix (suc n) source dest =
    let (sum, cells) = ref_loop-prefix n source dest in
    (ap (λ k. (k + source n) % word) sum, λ i h. ground (arith, sum, cells i))

pub prefix-lt : (n : ℕ) (source : Array) → prefix n source < word
unfolding prefix
prefix-lt zero source = omega arith
prefix-lt (suc n) source = omega arith

pub prefix_ext : (n : ℕ) (f g : Array) → ((k : ℕ) → k < n → f k ≡ g k) → prefix n f ≡ prefix n g
unfolding prefix
prefix_ext zero f g same = refl
prefix_ext (suc n) f g same =
    omega (arith, same n (omega arith), prefix_ext n f g (λ k h. same k (omega arith)))

-- A sum in two parts.
pub prefix-add :
    (n m : ℕ) (source : Array)
    → prefix (n + m) source ≡ (prefix m (λ k. source (n + k)) + prefix n source) % word
unfolding prefix
prefix-add n zero source =
    let e : n + 0 ≡ n = omega arith in
    ap (λ k. prefix k source) e ∙ omega (arith, prefix-lt n source)
prefix-add n (suc m) source =
    let e : n + suc m ≡ suc (n + m) = omega arith in
    ap (λ k. prefix k source) e ∙ omega (arith, prefix-add n m source)

pub prefix-none : (source : Array) → prefix 0 source ≡ 0
unfolding prefix
prefix-none source = refl

pub prefix-one : (source : Array) → prefix 1 source ≡ source 0 % word
unfolding prefix
prefix-one source = omega arith
