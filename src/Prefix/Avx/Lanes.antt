-- ===== src/Prefix/Avx/Lanes.antt =====
-- The lanes of an iteration of `avx2_version`, of cs610/assignment3/problem2/problem2.cpp.
use mtech.Prelude.{
  ℕ, zero, suc, ◌+◌, ◌-◌, ◌*◌, ◌%◌, ◌<◌, ◌≡◌, refl, sym, ap, subst, ◌∙◌, arith, ltb, if◌then◌else◌,
  dec_lt, get_elem?, ◌∷◌, [], some,
}
use mtech.Prefix.Reference.{word, Array, prefix, prefix_ext, prefix-add, prefix-lt, prefix-one}
use mtech.Prefix.Vectors.{Intrinsics, AreLanes, IsAvx2, tree_lane}
use mtech.Prefix.Avx.{mask2, avx2_halves, avx2_sums}

-- What is added to an entry too much: the first number of its group, in the lower half of it.
unfoldable pub extra : Array → ℕ → ℕ
extra source i = if ltb (i % 8) 4 then source (i - i % 8) else 0

module _ {V : Type 0} (s : Intrinsics V) where
  module _ (law : IsAvx2 s) where
    abbrev l : AreLanes 8 s
    l = law.lanes

    -- A lane of the lower half, and one of the upper half.
    half_lane :
        (source : Array) (n b j : ℕ)
        → b + 3 < 8
        → b % 4 ≡ 0
        → j < 4
        → s.lane (avx2_halves s (s.load source n)) (b + j)
          ≡ prefix (suc j) (λ i. source (n + (b + i)))
    unfolding avx2_halves
    half_lane source n b j inside start h =
        let x = s.load source n in
        let pairs = s.add x (s.slli x 4) in
        tree_lane s 8 l x b inside start (s.add pairs (s.slli pairs 8))
          (λ i c. l.add_lane pairs (s.slli pairs 8) i c) j h
        ∙ prefix_ext (suc j) (λ i. s.lane x (b + i)) (λ i. source (n + (b + i)))
            (λ i c. l.load_lane source n (b + i) (omega arith))

    -- The lanes of `offset`: the lowest lane in the lower half, and lane 3 in the upper half.
    offset_low : (v : V) (j : ℕ) → j < 4 → s.lane (s.permutevar v (mask2 s)) j ≡ s.lane v 0
    offset_low v j h =
        law.permutevar_lane v (mask2 s) j (omega arith)
        ∙ ap (λ i. s.lane v (i % 8)) (law.set_lane 3 3 3 3 0 0 0 0 j 0 (index j h))
      where
        index : (j : ℕ) → j < 4 → get_elem? {A = ℕ} (0 ∷ 0 ∷ 0 ∷ 0 ∷ 3 ∷ 3 ∷ 3 ∷ 3 ∷ []) j ≡ some 0
        index zero h = refl
        index (suc zero) h = refl
        index (suc (suc zero)) h = refl
        index (suc (suc (suc zero))) h = refl
        index (suc (suc (suc (suc j)))) h = absurd (omega arith)

    offset_high : (v : V) (j : ℕ) → j < 4 → s.lane (s.permutevar v (mask2 s)) (4 + j) ≡ s.lane v 3
    offset_high v j h =
        law.permutevar_lane v (mask2 s) (4 + j) (omega arith)
        ∙ ap (λ i. s.lane v (i % 8)) (law.set_lane 3 3 3 3 0 0 0 0 (4 + j) 3 (index j h))
      where
        index :
            (j : ℕ)
            → j < 4
            → get_elem? {A = ℕ} (0 ∷ 0 ∷ 0 ∷ 0 ∷ 3 ∷ 3 ∷ 3 ∷ 3 ∷ []) (4 + j) ≡ some 3
        index zero h = refl
        index (suc zero) h = refl
        index (suc (suc zero)) h = refl
        index (suc (suc (suc zero))) h = refl
        index (suc (suc (suc (suc j)))) h = absurd (omega arith)

    module _ (base : V) (source : Array) (k : ℕ)
        (same : (i : ℕ) → i < 8 → s.lane base i ≡ prefix (k * 8) source) where
      abbrev vec : V
      vec = avx2_halves s (s.load source (k * 8))

      abbrev here : Array
      here i = source (k * 8 + i)

      lower : (j : ℕ) → j < 4 → s.lane vec j ≡ prefix (suc j) here
      lower j h =
          let e : 0 + j ≡ j = omega arith in
          ap (s.lane vec) (sym e)
          ∙ (half_lane source (k * 8) 0 j (omega arith) refl h
              ∙ prefix_ext (suc j) (λ i. source (k * 8 + (0 + i))) here
                  (λ i c. let z : 0 + i ≡ i = omega arith in ap here z))

      sums_at :
          (j : ℕ)
          → j < 8
          → s.lane (avx2_sums s base (s.load source (k * 8))) j
            ≡ ((s.lane vec j + s.lane (s.permutevar vec (mask2 s)) j) % word
                + prefix (k * 8) source)
              % word
      unfolding avx2_sums
      sums_at j h =
          let sum = s.add vec (s.permutevar vec (mask2 s)) in
          ground (
            arith,
            l.add_lane sum base j h,
            l.add_lane vec (s.permutevar vec (mask2 s)) j h,
            same j h,
          )

      pub low_lane :
          (j : ℕ)
          → j < 4
          → s.lane (avx2_sums s base (s.load source (k * 8))) j
            ≡ (prefix (suc (k * 8 + j)) source + source (k * 8)) % word
      low_lane j h =
          let there : suc (k * 8 + j) ≡ k * 8 + suc j = omega arith in
          let start : k * 8 + 0 ≡ k * 8 = omega arith in
          let one : prefix 1 here ≡ source (k * 8) % word =
            prefix-one here ∙ ap (λ i. source i % word) start in
          omega (
            arith,
            sums_at j (omega arith),
            lower j h,
            offset_low vec j h,
            lower 0 (omega arith),
            one,
            prefix-add (k * 8) (suc j) source,
            ap (λ n. prefix n source) there,
          )

      pub high_lane :
          (j : ℕ)
          → j < 4
          → s.lane (avx2_sums s base (s.load source (k * 8))) (4 + j)
            ≡ prefix (suc (k * 8 + (4 + j))) source
      high_lane j h =
          let there : suc (k * 8 + (4 + j)) ≡ k * 8 + (4 + suc j) = omega arith in
          omega (
            arith,
            sums_at (4 + j) (omega arith),
            half_lane source (k * 8) 4 j (omega arith) refl h,
            offset_high vec j h,
            lower 3 (omega arith),
            prefix-add 4 (suc j) here,
            prefix-add (k * 8) (4 + suc j) source,
            ap (λ n. prefix n source) there,
          )

    pub extra_low : (source : Array) (k j : ℕ) → j < 4 → extra source (k * 8 + j) ≡ source (k * 8)
    unfolding extra
    extra_low source k j h =
        let r : (k * 8 + j) % 8 ≡ j = omega arith in
        let q : k * 8 + j - j ≡ k * 8 = omega arith in rw (r, q) (ground arith)

    pub extra_high : (source : Array) (k j : ℕ) → j < 4 → extra source (k * 8 + (4 + j)) ≡ 0
    unfolding extra
    extra_high source k j h =
        let r : (k * 8 + (4 + j)) % 8 ≡ 4 + j = omega arith in rw r (ground arith)

    pub sums_lane :
        (base : V) (source : Array) (k j : ℕ)
        → ((i : ℕ) → i < 8 → s.lane base i ≡ prefix (k * 8) source)
        → j < 8
        → s.lane (avx2_sums s base (s.load source (k * 8))) j
          ≡ (prefix (suc (k * 8 + j)) source + extra source (k * 8 + j)) % word
    sums_lane base source k j same h = elim (dec_lt j 4) [
      | yes low ↦ omega (arith, low_lane base source k same j low, extra_low source k j low)
      | no high ↦
          let e : 4 + (j - 4) ≡ j = omega arith in
          subst
            (λ i.
              s.lane (avx2_sums s base (s.load source (k * 8))) i
              ≡ (prefix (suc (k * 8 + i)) source + extra source (k * 8 + i)) % word)
            e
            (omega (
              arith,
              high_lane base source k same (j - 4) (omega arith),
              extra_high source k (j - 4) (omega arith),
              prefix-lt (suc (k * 8 + (4 + (j - 4)))) source,
            ))
    ]
