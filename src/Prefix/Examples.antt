-- ===== src/Prefix/Examples.antt =====
-- Vectors as functions of the lane, and the array of ones that `main` sums.
use mtech.Prelude.{
  ℕ, ◌+◌, ◌-◌, ◌*◌, ◌/◌, ◌%◌, ◌^◌, ◌<◌, ◌≡◌, refl, ap, arith, ltb, leb, ◌&&◌, if◌then◌else◌,
  get_elem?, ◌∷◌, [], Option, some, none,
}
use mtech.Prefix.Reference.{word, array_size, Array, ref_version}
use mtech.Prefix.Vectors.{Intrinsics, AreLanes, IsSse4, IsAvx2}
use mtech.Prefix.Sse.{sse4_version, sse4_version-ref_version}
use mtech.Prefix.Avx.{avx2_version}
use mtech.Prefix.Avx.Lanes.{extra}
use mtech.Prefix.Avx.Agree.{avx2_version-ref_version}

abbrev or_zero : Option ℕ → ℕ
or_zero none = 0
or_zero (some n) = n

-- Vectors of `size` lanes.
abbrev lanes : ℕ → Intrinsics (ℕ → ℕ)
lanes size = record {
  lane = λ v j. v j;
  setzero = λ j. 0;
  load = λ source i j. source (i + j);
  slli = λ v bytes j. if ltb (j % 4) (bytes / 4) then 0 else v (j - bytes / 4);
  add = λ a b j. (a j + b j) % word;
  store = λ dest i v j. if leb i j && ltb j (i + size) then v (j - i) else dest j;
  shuffle = λ v mask j. v (mask / 4 ^ j % 4);
  set_epi32 = λ a b c d e f g h j. or_zero (get_elem? (h ∷ g ∷ f ∷ e ∷ d ∷ c ∷ b ∷ a ∷ []) j);
  set1 = λ n j. n;
  permutevar = λ v index j. v (index j % 8);
  maskstore = λ dest i mask v j.
      if leb i j && (ltb j (i + size) && leb (2 ^ 31) (mask (j - i))) then v (j - i) else dest j;
}

lanes-AreLanes : (size : ℕ) → AreLanes size (lanes size)
lanes-AreLanes size = record {
  setzero_lane = λ j h. refl;
  load_lane = λ source i j h. refl;
  slli_lane = λ v k j h. let e : 4 * k / 4 ≡ k = omega arith in rw e refl;
  add_lane = λ a b j h. refl;
}

lanes-IsSse4 : IsSse4 (lanes 4)
lanes-IsSse4 = record {
  lanes = lanes-AreLanes 4;
  shuffle_lane = λ v mask j h. refl;
  store_inside = λ dest i v j h. let e : i + j - i ≡ j = omega arith in rw e (ground arith);
  store_below = λ dest i v j h. ground arith;
}

lanes-IsAvx2 : IsAvx2 (lanes 8)
lanes-IsAvx2 = record {
  lanes = lanes-AreLanes 8;
  set1_lane = λ n j h. refl;
  set_lane = λ a b c d e f g h j n at. ap or_zero at;
  permutevar_lane = λ v index j h. refl;
  maskstore_inside =
      λ dest i mask v j h set. let e : i + j - i ≡ j = omega arith in rw e (ground arith);
  maskstore_below = λ dest i mask v j h. ground arith;
}

abbrev ones : Array
ones i = 1

abbrev zeros : Array
zeros i = 0

sse4_version-ref_version_example :
    ((sse4_version (lanes 4) ones zeros).0 ≡ (ref_version ones zeros).0)
    × ((i : ℕ)
        → i < array_size
        → (sse4_version (lanes 4) ones zeros).1 i ≡ (ref_version ones zeros).1 i)
sse4_version-ref_version_example = sse4_version-ref_version (lanes 4) lanes-IsSse4 ones zeros

avx2_version-ref_version_example :
    ((avx2_version (lanes 8) ones zeros).0 ≡ (ref_version ones zeros).0)
    × ((i : ℕ)
        → i < array_size
        → (avx2_version (lanes 8) ones zeros).1 i
          ≡ ((ref_version ones zeros).1 i + extra ones i) % word)
avx2_version-ref_version_example = avx2_version-ref_version (lanes 8) lanes-IsAvx2 ones zeros
