-- ===== src/Prefix/Avx/Agree.antt =====
-- `avx2_version` of cs610/assignment3/problem2/problem2.cpp against the reference.
use mtech.Prelude.{
  ℕ, zero, suc, ◌+◌, ◌-◌, ◌*◌, ◌/◌, ◌%◌, ◌^◌, ◌≤◌, ◌<◌, ◌≡◌, refl, sym, ap, ◌∙◌, arith, dec_lt,
  get_elem?, ◌∷◌, [], some,
}
use mtech.Prefix.Reference.{
  word, array_size, Array, ref_version, prefix, prefix-lt, prefix-none, ref_loop-prefix,
}
use mtech.Prefix.Vectors.{Intrinsics, AreLanes, IsAvx2}
use mtech.Prefix.Avx.{mask1, mask, avx2_sums, avx2_loop, avx2_version}
use mtech.Prefix.Avx.Lanes.{extra, high_lane, extra_high, sums_lane}

module _ {V : Type 0} (s : Intrinsics V) (law : IsAvx2 s) where
  abbrev l : AreLanes 8 s
  l = law.lanes

  all_set : (j : ℕ) → j < 8 → 2 ^ 31 ≤ s.lane (mask s) j
  all_set j h = omega (arith, law.set1_lane (word - 1) j h)

  last_base : (v : V) (j : ℕ) → j < 8 → s.lane (s.permutevar v (mask1 s)) j ≡ s.lane v 7
  last_base v j h =
      law.permutevar_lane v (mask1 s) j h
      ∙ ap (λ i. s.lane v (i % 8)) (law.set_lane 7 7 7 7 7 7 7 7 j 7 (index j h))
    where
      index : (j : ℕ) → j < 8 → get_elem? {A = ℕ} (7 ∷ 7 ∷ 7 ∷ 7 ∷ 7 ∷ 7 ∷ 7 ∷ 7 ∷ []) j ≡ some 7
      index zero h = refl
      index (suc zero) h = refl
      index (suc (suc zero)) h = refl
      index (suc (suc (suc zero))) h = refl
      index (suc (suc (suc (suc zero)))) h = refl
      index (suc (suc (suc (suc (suc zero))))) h = refl
      index (suc (suc (suc (suc (suc (suc zero)))))) h = refl
      index (suc (suc (suc (suc (suc (suc (suc zero))))))) h = refl
      index (suc (suc (suc (suc (suc (suc (suc (suc j)))))))) h = absurd (omega arith)

  avx2_loop-prefix :
      (k : ℕ) (source dest : Array)
      → ((j : ℕ) → j < 8 → s.lane (avx2_loop s k source dest).0 j ≡ prefix (k * 8) source)
        × ((i : ℕ)
            → i < k * 8
            → (avx2_loop s k source dest).1 i ≡ (prefix (suc i) source + extra source i) % word)
  unfolding avx2_loop
  avx2_loop-prefix zero source dest =
      ((λ j h. l.setzero_lane j h ∙ sym (prefix-none source)), λ i h. absurd (omega arith))
  avx2_loop-prefix (suc k) source dest =
      let (bases, cells) = avx2_loop-prefix k source dest in
      let (base, done) = avx2_loop s k source dest in
      let vec = avx2_sums s base (s.load source (k * 8)) in
      (
        (λ j h.
            let e : suc (k * 8 + (4 + 3)) ≡ suc k * 8 = omega arith in
            last_base vec j h
            ∙ (high_lane s law base source k bases 3 (omega arith) ∙ ap (λ n. prefix n source) e)),
        λ i h. elim (dec_lt i (k * 8)) [
          | yes before ↦ law.maskstore_below done (k * 8) (mask s) vec i before ∙ cells i before
          | no here ↦
              let e : k * 8 + (i - k * 8) ≡ i = omega arith in
              let set = all_set (i - k * 8) (omega arith) in
              ap (s.maskstore done (k * 8) (mask s) vec) (sym e)
              ∙ (law.maskstore_inside done (k * 8) (mask s) vec (i - k * 8) (omega arith) set
                  ∙ (sums_lane s law base source k (i - k * 8) bases (omega arith)
                      ∙ ap (λ n. (prefix (suc n) source + extra source n) % word) e))
        ],
      )

  -- The vector version returns what the reference returns. In the array, the upper half of every
  -- group of eight entries is that of the reference, but to each entry of the lower half the first
  -- number of the group is added once more.
  pub avx2_version-ref_version :
      (source dest : Array)
      → ((avx2_version s source dest).0 ≡ (ref_version source dest).0)
        × ((i : ℕ)
            → i < array_size
            → (avx2_version s source dest).1 i
              ≡ ((ref_version source dest).1 i + extra source i) % word)
  unfolding avx2_version ref_version
  avx2_version-ref_version source dest =
      let (bases, cells) = avx2_loop-prefix (array_size / 8) source dest in
      let (sum, reference) = ref_loop-prefix array_size source dest in
      let high = extra_high s law source 8191 3 (omega arith) in
      let small = prefix-lt array_size source in
      (
        omega (arith, cells (array_size - 1) (omega arith), sum, high, small),
        λ i h. omega (arith, cells i h, reference i h),
      )
