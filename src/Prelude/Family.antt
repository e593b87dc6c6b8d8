-- ===== src/Prelude/Family.antt =====
-- Families `ℕ → A`, such as a store of objects by address: update at one index.
use Prim.Native.Nat.{ℕ, zero, suc, ◌+◌, ◌≤◌, ◌<◌}
use mathlib.Core.Path.{◌≡◌, refl}
use mathlib.Core.Logic.{◌≢◌}
use native.Mathlib.Omega.{arith}
use native.Mathlib.Decide.{dec_lt}
use mtech.Prelude.Tests.{◌==◌, if◌then◌else◌}

abbrev pub update {ℓ} : {A : Type ℓ} → (ℕ → A) → ℕ → A → ℕ → A
update f i a j = if i == j then a else f j

module _ {ℓ} {A : Type ℓ} (f : ℕ → A) (i : ℕ) (a : A) where
  pub update_self : update f i a i ≡ a
  update_self = ground arith

  pub update_ne : (j : ℕ) → i ≢ j → update f i a j ≡ f j
  update_ne j h = ground arith

-- The sum of the weights of the first `k` members. A weight may depend on the index.
unfoldable pub total {ℓ} : {A : Type ℓ} → (ℕ → A → ℕ) → ℕ → (ℕ → A) → ℕ
total weight zero store = 0
total weight (suc k) store = weight k (store k) + total weight k store

module _ {ℓ} {A : Type ℓ} (v w : ℕ → A → ℕ) where
  -- Members that weigh the same have the same sum.
  pub total_ext :
      (k : ℕ) (s t : ℕ → A) → ((j : ℕ) → j < k → v j (s j) ≡ w j (t j)) → total v k s ≡ total w k t
  unfolding total
  total_ext zero s t same = refl
  total_ext (suc k) s t same =
      omega (arith, same k (omega arith), total_ext k s t (λ j below. same j (omega arith)))

module _ {ℓ} {A : Type ℓ} (w : ℕ → A → ℕ) (s : ℕ → A) (i : ℕ) where
  -- The member at `i` and the rest of the sum.
  total-member : (k : ℕ) → i < k → (rest : ℕ) × ((x : A) → total w k (update s i x) ≡ rest + w i x)
  unfolding total
  total-member zero below = absurd (omega arith)
  total-member (suc k) below = elim (dec_lt i k) [
    | yes before ↦
        let (rest, sum) = total-member k before in (w k (s k) + rest, (λ x. ground (arith, sum x)))
    | no here ↦ (
      total w k s,
      (λ x. let same = total_ext w w k (update s i x) s (λ j before. ground arith) in ground arith),
    )
  ]

  total-unchanged : (k : ℕ) → total w k (update s i (s i)) ≡ total w k s
  total-unchanged k = total_ext w w k _ s (λ j below. ground arith)

  -- A change of one member changes the sum by its weight.
  pub total-update :
      (k : ℕ) (x : A) → i < k → total w k (update s i x) + w i (s i) ≡ total w k s + w i x
  total-update k x below =
      let (rest, sum) = total-member k below in omega (arith, sum x, sum (s i), total-unchanged k)

  pub total-le-member : (k : ℕ) → i < k → w i (s i) ≤ total w k s
  total-le-member k below =
      let (rest, sum) = total-member k below in omega (arith, sum (s i), total-unchanged k)

-- A positive sum has a positive member.
pub total_pos {ℓ} :
    {A : Type ℓ} (w : ℕ → A → ℕ) (k : ℕ) (s : ℕ → A)
    → 0 < total w k s
    → (j : ℕ) × (j < k) × (0 < w j (s j))
unfolding total
total_pos w zero s h = absurd (omega arith)
total_pos w (suc k) s h = elim (dec_lt 0 (w k (s k))) [
  | yes here ↦ (k, omega arith, here)
  | no nothing ↦ let (j, below, found) = total_pos w k s (omega arith) in (j, omega arith, found)
]
