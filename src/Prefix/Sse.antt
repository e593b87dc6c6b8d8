-- ===== src/Prefix/Sse.antt =====
-- `sse4_version` of cs610/assignment3/problem2/problem2.cpp.
use mtech.Prelude.{
  ℕ, zero, suc, ◌+◌, ◌-◌, ◌*◌, ◌/◌, ◌%◌, ◌^◌, ◌<◌, ◌≡◌, refl, sym, ap, ◌∙◌, arith, dec_lt,
}
use mtech.Prefix.Reference.{
  array_size, Array, ref_version, prefix, prefix_ext, prefix-add, ref_loop-prefix,
}
use mtech.Prefix.Vectors.{Intrinsics, AreLanes, IsSse4, tree_lane}

-- `_MM_SHUFFLE(3, 3, 3, 3)`
abbrev pub last_lane : ℕ
last_lane = 3 * 64 + 3 * 16 + 3 * 4 + 3

module _ {V : Type 0} (s : Intrinsics V) where
  -- `out` of an iteration.
  unfoldable pub sse4_sums : V → V → V
  sse4_sums offset x = let tmp1 = s.add x (s.slli x 4) in s.add (s.add (s.slli tmp1 8) tmp1) offset

  -- `offset` and `dest` after the first iterations.
  unfoldable pub sse4_loop : ℕ → Array → Array → V × Array
  sse4_loop zero source dest = (s.setzero, dest)
  sse4_loop (suc k) source dest =
      let (offset, done) = sse4_loop k source dest in
      let out = sse4_sums offset (s.load source (k * 4)) in
      (s.shuffle out last_lane, s.store done (k * 4) out)

  unfoldable pub sse4_version : Array → Array → ℕ × Array
  sse4_version source dest =
      let (offset, done) = sse4_loop (array_size / 4) source dest in (done (array_size - 1), done)

  module _ (law : IsSse4 s) where
    abbrev l : AreLanes 4 s
    l = law.lanes

    -- The sums of an iteration, behind those before.
    sums_lane :
        (offset : V) (source : Array) (k j : ℕ)
        → ((i : ℕ) → i < 4 → s.lane offset i ≡ prefix (k * 4) source)
        → j < 4
        → s.lane (sse4_sums offset (s.load source (k * 4))) j ≡ prefix (suc (k * 4 + j)) source
    unfolding sse4_sums
    sums_lane offset source k j same h =
        let x = s.load source (k * 4) in
        let tmp1 = s.add x (s.slli x 4) in
        let y = s.add (s.slli tmp1 8) tmp1 in
        let group =
          tree_lane s 4 l x 0 (omega arith) refl y
            (λ i b. omega (arith, l.add_lane (s.slli tmp1 8) tmp1 i b)) j h in
        let here : 0 + j ≡ j = omega arith in
        let there : suc (k * 4 + j) ≡ k * 4 + suc j = omega arith in
        let loaded =
          prefix_ext (suc j) (λ i. s.lane x (0 + i)) (λ i. source (k * 4 + i))
            (λ i b.
              let e : 0 + i ≡ i = omega arith in
              ap (s.lane x) e ∙ l.load_lane source (k * 4) i (omega arith)) in
        ground (
          arith,
          ap (s.lane y) here,
          group,
          loaded,
          l.add_lane y offset j h,
          same j h,
          prefix-add (k * 4) (suc j) source,
          ap (λ n. prefix n source) there,
        )

    last_of_four : (j : ℕ) → j < 4 → last_lane / 4 ^ j % 4 ≡ 3
    last_of_four zero h = refl
    last_of_four (suc zero) h = refl
    last_of_four (suc (suc zero)) h = refl
    last_of_four (suc (suc (suc zero))) h = refl
    last_of_four (suc (suc (suc (suc j)))) h = absurd (omega arith)

    sse4_loop-prefix :
        (k : ℕ) (source dest : Array)
        → ((j : ℕ) → j < 4 → s.lane (sse4_loop k source dest).0 j ≡ prefix (k * 4) source)
          × ((i : ℕ) → i < k * 4 → (sse4_loop k source dest).1 i ≡ prefix (suc i) source)
    unfolding sse4_loop prefix
    sse4_loop-prefix zero source dest = ((λ j h. l.setzero_lane j h), λ i h. absurd (omega arith))
    sse4_loop-prefix (suc k) source dest =
        let (offsets, cells) = sse4_loop-prefix k source dest in
        let (offset, done) = sse4_loop k source dest in
        let out = sse4_sums offset (s.load source (k * 4)) in
        (
          (λ j h.
              let e : suc (k * 4 + 3) ≡ suc k * 4 = omega arith in
              law.shuffle_lane out last_lane j h
              ∙ (ap (s.lane out) (last_of_four j h)
                  ∙ (sums_lane offset source k 3 offsets (omega arith)
                      ∙ ap (λ n. prefix n source) e))),
          λ i h. elim (dec_lt i (k * 4)) [
            | yes before ↦ law.store_below done (k * 4) out i before ∙ cells i before
            | no here ↦
                let e : k * 4 + (i - k * 4) ≡ i = omega arith in
                ap (s.store done (k * 4) out) (sym e)
                ∙ (law.store_inside done (k * 4) out (i - k * 4) (omega arith)
                    ∙ (sums_lane offset source k (i - k * 4) offsets (omega arith)
                        ∙ ap (λ n. prefix (suc n) source) e))
          ],
        )

    -- The vector version returns what the reference returns, and leaves the same array.
    pub sse4_version-ref_version :
        (source dest : Array)
        → ((sse4_version source dest).0 ≡ (ref_version source dest).0)
          × ((i : ℕ)
              → i < array_size
              → (sse4_version source dest).1 i ≡ (ref_version source dest).1 i)
    unfolding sse4_version ref_version
    sse4_version-ref_version source dest =
        let (offsets, cells) = sse4_loop-prefix (array_size / 4) source dest in
        let (sum, reference) = ref_loop-prefix array_size source dest in
        (cells (array_size - 1) (omega arith) ∙ sym sum, λ i h. cells i h ∙ sym (reference i h))
