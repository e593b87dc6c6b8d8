-- ===== src/Prefix/Avx.antt =====
-- `avx2_version` of cs610/assignment3/problem2/problem2.cpp.
pub mod Lanes
pub mod Agree
use mtech.Prelude.{
  ℕ, zero, suc, ◌+◌, ◌-◌, ◌*◌, ◌/◌, ◌%◌, ◌^◌, ◌≤◌, ◌<◌, ◌≡◌, refl, sym, ap, subst, ◌∙◌, arith, ltb,
  if◌then◌else◌, dec_lt, get_elem?, ◌∷◌, [], some,
}
use mtech.Prefix.Reference.{
  word, array_size, Array, ref_version, prefix, prefix_ext, prefix-add, prefix-lt, prefix-one,
  prefix-none, ref_loop-prefix,
}
use mtech.Prefix.Vectors.{Intrinsics, AreLanes, IsAvx2, tree_lane}

module _ {V : Type 0} (s : Intrinsics V) where
  abbrev pub mask1 : V
  mask1 = s.set_epi32 7 7 7 7 7 7 7 7

  abbrev pub mask2 : V
  mask2 = s.set_epi32 3 3 3 3 0 0 0 0

  -- All bits are set.
  abbrev pub mask : V
  mask = s.set1 (word - 1)

  -- The sums within each half of a vector.
  unfoldable pub avx2_halves : V → V
  avx2_halves x = let pairs = s.add x (s.slli x 4) in s.add pairs (s.slli pairs 8)

  -- `vec` at the end of an iteration.
  unfoldable pub avx2_sums : V → V → V
  avx2_sums base x = let vec = avx2_halves x in s.add (s.add vec (s.permutevar vec mask2)) base

  -- `base` and `dest` after the first iterations.
  unfoldable pub avx2_loop : ℕ → Array → Array → V × Array
  avx2_loop zero source dest = (s.setzero, dest)
  avx2_loop (suc k) source dest =
      let (base, done) = avx2_loop k source dest in
      let vec = avx2_sums base (s.load source (k * 8)) in
      (s.permutevar vec mask1, s.maskstore done (k * 8) mask vec)

  unfoldable pub avx2_version : Array → Array → ℕ × Array
  avx2_version source dest =
      let (base, done) = avx2_loop (array_size / 8) source dest in (done (array_size - 1), done)
