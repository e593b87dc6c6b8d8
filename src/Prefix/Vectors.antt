-- ===== src/Prefix/Vectors.antt =====
-- The vector instructions that cs610/assignment3/problem2/problem2.cpp calls, as they are documented.
use mtech.Prelude.{
  ℕ, zero, suc, ◌+◌, ◌-◌, ◌*◌, ◌/◌, ◌%◌, ◌^◌, ◌≤◌, ◌<◌, ◌≡◌, ltb, if◌then◌else◌, [], ◌∷◌, get_elem?,
  some, arith,
}
use mtech.Prefix.Reference.{word, Array, prefix}

-- Vectors of `int`, by their lanes from the lowest on. A shift is in bytes.
pub record Intrinsics (V : Type 0) : Type 0 where
  pub lane : V → ℕ → ℕ
  pub setzero : V
  pub load : Array → ℕ → V
  pub slli : V → ℕ → V
  pub add : V → V → V
  pub store : Array → ℕ → V → Array
  pub shuffle : V → ℕ → V
  pub set_epi32 : ℕ → ℕ → ℕ → ℕ → ℕ → ℕ → ℕ → ℕ → V
  pub set1 : ℕ → V
  pub permutevar : V → V → V
  pub maskstore : Array → ℕ → V → V → Array

-- What both sizes have in common: a shift is within four lanes.
pub record AreLanes (size : ℕ) {V : Type 0} (s : Intrinsics V) : Type 0 where
  pub setzero_lane : (j : ℕ) → j < size → s.lane s.setzero j ≡ 0
  pub load_lane :
      (source : Array) (i j : ℕ) → j < size → s.lane (s.load source i) j ≡ source (i + j)
  pub slli_lane :
      (v : V) (k j : ℕ)
      → j < size
      → s.lane (s.slli v (4 * k)) j ≡ (if ltb (j % 4) k then 0 else s.lane v (j - k))
  pub add_lane :
      (a b : V) (j : ℕ) → j < size → s.lane (s.add a b) j ≡ (s.lane a j + s.lane b j) % word

-- 128 bits, `_mm_`.
pub record IsSse4 {V : Type 0} (s : Intrinsics V) : Type 0 where
  pub lanes : AreLanes 4 s
  pub shuffle_lane :
      (v : V) (mask j : ℕ) → j < 4 → s.lane (s.shuffle v mask) j ≡ s.lane v (mask / 4 ^ j % 4)
  pub store_inside :
      (dest : Array) (i : ℕ) (v : V) (j : ℕ) → j < 4 → s.store dest i v (i + j) ≡ s.lane v j
  pub store_below : (dest : Array) (i : ℕ) (v : V) (j : ℕ) → j < i → s.store dest i v j ≡ dest j

-- 256 bits, `_mm256_`.
pub record IsAvx2 {V : Type 0} (s : Intrinsics V) : Type 0 where
  pub lanes : AreLanes 8 s
  pub set1_lane : (n j : ℕ) → j < 8 → s.lane (s.set1 n) j ≡ n
  pub set_lane :
      (a b c d e f g h j n : ℕ)
      → get_elem? (h ∷ g ∷ f ∷ e ∷ d ∷ c ∷ b ∷ a ∷ []) j ≡ some n
      → s.lane (s.set_epi32 a b c d e f g h) j ≡ n
  pub permutevar_lane :
      (v index : V) (j : ℕ)
      → j < 8
      → s.lane (s.permutevar v index) j ≡ s.lane v (s.lane index j % 8)
  pub maskstore_inside :
      (dest : Array) (i : ℕ) (mask v : V) (j : ℕ)
      → j < 8
      → 2 ^ 31 ≤ s.lane mask j
      → s.maskstore dest i mask v (i + j) ≡ s.lane v j
  pub maskstore_below :
      (dest : Array) (i : ℕ) (mask v : V) (j : ℕ) → j < i → s.maskstore dest i mask v j ≡ dest j

module _ {V : Type 0} (s : Intrinsics V) where
  module _ (size : ℕ) (l : AreLanes size s) (x : V) (b : ℕ) (inside : b + 3 < size)
      (start : b % 4 ≡ 0) where
    abbrev pairs : V
    pairs = s.add x (s.slli x 4)

    at0 : s.lane pairs b ≡ s.lane x b % word
    at0 = ground (arith, l.add_lane x (s.slli x 4) b (omega arith), l.slli_lane x 1 b (omega arith))

    pair_at :
        (j : ℕ)
        → j < 3
        → s.lane pairs (b + suc j) ≡ (s.lane x (b + suc j) + s.lane x (b + j)) % word
    pair_at j h =
        let e : b + suc j - 1 ≡ b + j = omega arith in
        let odd : (b + suc j) % 4 ≡ suc j = omega arith in
        ground (
          arith,
          l.add_lane x (s.slli x 4) (b + suc j) (omega arith),
          l.slli_lane x 1 (b + suc j) (omega arith),
        )

    module _ (y : V)
        (sum : (j : ℕ)
          → j < size
          → s.lane y j ≡ (s.lane pairs j + s.lane (s.slli pairs 8) j) % word) where
      abbrev group : Array
      group k = s.lane x (b + k)

      low : (j : ℕ) → j < 2 → s.lane y (b + j) ≡ s.lane pairs (b + j) % word
      low j h =
          let within : (b + j) % 4 ≡ j = omega arith in
          ground (arith, sum (b + j) (omega arith), l.slli_lane pairs 2 (b + j) (omega arith))

      high :
          (j : ℕ)
          → j < 2
          → s.lane y (b + suc (suc j))
            ≡ (s.lane pairs (b + suc (suc j)) + s.lane pairs (b + j)) % word
      high j h =
          let within : (b + suc (suc j)) % 4 ≡ suc (suc j) = omega arith in
          let before : b + suc (suc j) - 2 ≡ b + j = omega arith in
          ground (
            arith,
            sum (b + suc (suc j)) (omega arith),
            l.slli_lane pairs 2 (b + suc (suc j)) (omega arith),
          )

      first : s.lane pairs (b + 0) ≡ s.lane x (b + 0) % word
      first = let e : b + 0 ≡ b = omega arith in ground (arith, at0)

      -- Each lane of a group is the sum of the lanes of the group up to it.
      pub tree_lane : (j : ℕ) → j < 4 → s.lane y (b + j) ≡ prefix (suc j) group
      unfolding prefix
      tree_lane zero h = omega (arith, low 0 (omega arith), first)
      tree_lane (suc zero) h = omega (arith, low 1 (omega arith), pair_at 0 (omega arith))
      tree_lane (suc (suc zero)) h =
          omega (arith, high 0 (omega arith), first, pair_at 1 (omega arith))
      tree_lane (suc (suc (suc zero))) h =
          omega (arith, high 1 (omega arith), pair_at 0 (omega arith), pair_at 2 (omega arith))
      tree_lane (suc (suc (suc (suc j)))) h = absurd (omega arith)
