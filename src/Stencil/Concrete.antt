-- ===== src/Stencil/Concrete.antt =====
-- An MPI and comparisons to run the program with, for the examples.
use mtech.Prelude.{
  ℕ, zero, suc, ◌+◌, ◌*◌, ◌/◌, ◌%◌, ◌<◌, ◌≡◌, refl, ap, Bool, false, none, some, ltb, leb, lt→ltb,
  if◌then◌else◌, arith, ℕ_discrete, Bool-cases, inl, inr,
}
use mtech.Prelude.Sums.{sum}
use mtech.Prelude.Digits.{quotient, remainder}
use mtech.Stencil.Cube.{Buffer}
use mtech.Stencil.Exchange.{Call, View, Mpi}
use mtech.Stencil.Halo.{Delivers}
use mtech.Stencil.Extrema.{Floats}
use mtech.Stencil.Fill.{Reads}
use mtech.Stencil.Totals.{Adds}
use mtech.Stencil.Best.{Orders, better, better_self, better_keep}
use mtech.Stencil.Range.{Picks}
use mtech.Stencil.Results.{gt}

-- Natural numbers for floats.
abbrev pub naturals : Floats ℕ
naturals = record { lt = ltb; le = leb; flt_max = 1000; minus_flt_max = 0 }

abbrev best_of : (ℕ → ℕ → Bool) → ℕ → (ℕ → ℕ) → ℕ
best_of before zero f = f 0
best_of before (suc n) f = better before (f n) (best_of before n f)

-- The entry of the file for an entry of the buffer, by its digits.
abbrev file_index : View → ℕ → ℕ
file_index v i =
    let t = i % v.nc in
    let point = i / v.nc in
    let x = point % v.subsizes.2 in
    let row = point / v.subsizes.2 in
    let y = row % v.subsizes.1 in
    let z = row / v.subsizes.1 in
    (((v.starts.0 + z) * v.sizes.1 + (v.starts.1 + y)) * v.sizes.2 + (v.starts.2 + x)) * v.nc + t

abbrev received : (ℕ → Call ℕ) → ℕ → Buffer ℕ
received calls r i = elim (calls r).source [ none ↦ 0 | some s ↦ (calls s).send i ]

abbrev pub local_mpi : Mpi ℕ
local_mpi = record {
  read_all = λ v count file i. if ltb i count then file (file_index v i) else 0;
  sendrecv = received;
  reduce_sum = sum;
  reduce_min = best_of ltb;
  reduce_max = best_of (gt naturals);
}

pub local_mpi-Delivers : Delivers local_mpi
local_mpi-Delivers = record { delivers = λ calls r s i source dest inside. ground arith }

pub local_mpi-Adds : Adds local_mpi
local_mpi-Adds = record { adds = λ n f. refl }

pub ltb-Orders : Orders naturals.lt
ltb-Orders = record {
  irreflexive = λ a. ground arith;
  transitive = λ a b c h k. ground arith;
  not_transitive = λ a b c h k. ground arith;
}

file_index_lem :
    (v : View) (k j i t : ℕ)
    → j < v.subsizes.1
    → i < v.subsizes.2
    → t < v.nc
    → file_index v (((k * v.subsizes.1 + j) * v.subsizes.2 + i) * v.nc + t)
      ≡ (((v.starts.0 + k) * v.sizes.1 + (v.starts.1 + j)) * v.sizes.2 + (v.starts.2 + i)) * v.nc
        + t
file_index_lem v k j i t hj hi ht =
    let point = (k * v.subsizes.1 + j) * v.subsizes.2 + i in
    let row = k * v.subsizes.1 + j in
    let e1 = quotient v.nc point t ht in
    let e2 = remainder v.nc point t ht in
    let e3 = quotient v.subsizes.2 row i hi in
    let e4 = remainder v.subsizes.2 row i hi in
    let e5 = quotient v.subsizes.1 k j hj in
    let e6 = remainder v.subsizes.1 k j hj in cc (e1, e2, e3, e4, e5, e6)

pub local_mpi-Reads : Reads local_mpi
local_mpi-Reads = record {
  reads = λ v count file k j i t small below hk hj hi ht.
      rw (lt→ltb _ _ below) (ap file (file_index_lem v k j i t hj hi ht));
}

module _ (before : ℕ → ℕ → Bool) (orders : Orders before) where
  best_of-bound : (n : ℕ) (f : ℕ → ℕ) (i : ℕ) → i < n → before (f i) (best_of before n f) ≡ false
  best_of-bound zero f i h = absurd (omega arith)
  best_of-bound (suc n) f i h = elim (ℕ_discrete i n) [
    | yes e ↦ rw e (better_self before orders (f n) (best_of before n f))
    | no ne ↦
        better_keep before orders (f i) (f n) (best_of before n f)
          (best_of-bound n f i (omega arith))
  ]

  best_of-from : (n : ℕ) (f : ℕ → ℕ) → (i : ℕ) × (i < suc n) × (best_of before (suc n) f ≡ f i)
  best_of-from zero f = (0, omega arith, ground arith)
  best_of-from (suc n) f =
      let (i, h, e) = best_of-from n f in
      elim (Bool-cases (before (f (suc n)) (best_of before (suc n) f))) [
        | inl later ↦ (suc n, omega arith, ground arith)
        | inr earlier ↦ (i, omega arith, ground arith)
      ]

  best_of-found : (n : ℕ) (f : ℕ → ℕ) → 0 < n → (i : ℕ) × (i < n) × (best_of before n f ≡ f i)
  best_of-found zero f h = absurd (omega arith)
  best_of-found (suc n) f h = best_of-from n f

  pub best_of-Picks : Picks before (best_of before)
  best_of-Picks = record { bound = best_of-bound; found = best_of-found }
