-- ===== src/Bloom/Locks.antt =====
-- The locks that the operations hold, the order in which they take them, and the bounds of the arrays.
use mtech.Prelude.{
  ℕ, ◌/◌, ◌%◌, ◌<◌, ◌≡◌, ◌⊎◌, inl, inr, Bool, true, false, not, ◌&&◌, ◌||◌, ◌==◌, ltb, List, [],
  ◌∷◌, if◌then◌else◌, arith,
}
use mtech.Bloom.Filter.{
  bloom_size, bit_array_size, stripe_count, hash1, hash2, hash3, get_stripe, Act, lock, unlock, set,
  read, locked, reads, add_acts, contains_acts,
}

abbrev holds : ℕ → List ℕ → Bool
holds i [] = false
holds i (j ∷ held) = i == j || holds i held

abbrev give_back : ℕ → List ℕ → List ℕ
give_back i [] = []
give_back i (j ∷ held) = if i == j then held else j ∷ give_back i held

-- No lock is taken twice or given back unheld, a bit is only touched under its stripe's lock, and none
-- is held at the end.
unfoldable pub disciplined : List ℕ → List Act → Bool
unfolding get_stripe
disciplined [] [] = true
disciplined (i ∷ held) [] = false
disciplined held (lock i ∷ acts) = not (holds i held) && disciplined (i ∷ held) acts
disciplined held (unlock i ∷ acts) = holds i held && disciplined (give_back i held) acts
disciplined held (set h ∷ acts) = holds (get_stripe h) held && disciplined held acts
disciplined held (read h ∷ acts) = holds (get_stripe h) held && disciplined held acts

locked-disciplined :
    (h1 h2 h3 : ℕ)
    → disciplined []
        (locked (get_stripe h1) (get_stripe h2) (get_stripe h3) (set h1 ∷ (set h2 ∷ (set h3 ∷ []))))
      ≡ true
unfolding disciplined locked
locked-disciplined h1 h2 h3 = ground arith

reads-disciplined :
    (h1 h2 h3 : ℕ)
    → disciplined [] (reads (get_stripe h1) (get_stripe h2) (get_stripe h3) h1 h2 h3) ≡ true
unfolding disciplined reads
reads-disciplined h1 h2 h3 = ground arith

-- `add` and `contains` hold the lock of a bit's stripe when they touch the bit, take no lock twice and
-- give back all that they take.
pub acts-disciplined :
    (value : ℕ)
    → (disciplined [] (add_acts value) ≡ true) × (disciplined [] (contains_acts value) ≡ true)
unfolding add_acts contains_acts
acts-disciplined value = (
  locked-disciplined (hash1 value) (hash2 value) (hash3 value),
  reads-disciplined (hash1 value) (hash2 value) (hash3 value),
)

abbrev above : ℕ → List ℕ → Bool
above i [] = true
above i (j ∷ held) = ltb j i && above i held

-- Every lock is taken while only lower ones are held.
unfoldable pub ascending : List ℕ → List Act → Bool
ascending held [] = true
ascending held (lock i ∷ acts) = above i held && ascending (i ∷ held) acts
ascending held (unlock i ∷ acts) = ascending (give_back i held) acts
ascending held (set h ∷ acts) = ascending held acts
ascending held (read h ∷ acts) = ascending held acts

-- Two of the three stripes are the same, and the lock of the lower stripe is taken second.
abbrev pub inverted : ℕ → ℕ → ℕ → Bool
inverted i j k = (i == j && ltb k i) || ((i == k && ltb j i) || (j == k && ltb i j))

locked-ascending :
    (i j k h1 h2 h3 : ℕ)
    → ascending [] (locked i j k (set h1 ∷ (set h2 ∷ (set h3 ∷ [])))) ≡ not (inverted i j k)
unfolding ascending locked
locked-ascending i j k h1 h2 h3 = ground arith

reads-ascending : (i j k h1 h2 h3 : ℕ) → ascending [] (reads i j k h1 h2 h3) ≡ true
unfolding ascending reads
reads-ascending i j k h1 h2 h3 = ground arith

-- `add` takes its locks in ascending order exactly when it is not so that two of its stripes are the
-- same and the third is lower; `contains` always does.
pub add_acts-ascending :
    (value : ℕ)
    → (ascending [] (add_acts value)
        ≡ not (
            inverted
              (get_stripe (hash1 value))
              (get_stripe (hash2 value))
              (get_stripe (hash3 value))))
      × (ascending [] (contains_acts value) ≡ true)
unfolding add_acts contains_acts
add_acts-ascending value =
    let h1 = hash1 value in
    let h2 = hash2 value in
    let h3 = hash3 value in
    (
      locked-ascending (get_stripe h1) (get_stripe h2) (get_stripe h3) h1 h2 h3,
      reads-ascending (get_stripe h1) (get_stripe h2) (get_stripe h3) h1 h2 h3,
    )

bit-bounds :
    (x : ℕ) → (x % bloom_size / 8 < bit_array_size) × (get_stripe (x % bloom_size) < stripe_count)
unfolding get_stripe
bit-bounds x = (omega arith, omega arith)

-- The three bits of a value stand in the bit array, and their stripes have locks.
pub hash-bounds :
    (value h : ℕ)
    → (h ≡ hash1 value) ⊎ ((h ≡ hash2 value) ⊎ (h ≡ hash3 value))
    → (h / 8 < bit_array_size) × (get_stripe h < stripe_count)
unfolding hash1 hash2 hash3
hash-bounds value h (inl e) = rw e (bit-bounds _)
hash-bounds value h (inr (inl e)) = rw e (bit-bounds _)
hash-bounds value h (inr (inr e)) = rw e (bit-bounds _)
