-- ===== src/Bloom/Examples.antt =====
-- Values of the filter, and the theorems at concrete inputs.
use mtech.Prelude.{ℕ, ◌≡◌, refl, true, false, not, ◌&&◌, List, [], ◌∷◌, map}
use mtech.Prelude.Bits.{bitwise}
use mtech.Bloom.Filter.{
  hash1, hash2, hash3, get_stripe, Act, bloom_init, perform, add_acts, add, contains_acts, contains,
}
use mtech.Bloom.Interleave.{
  Merge, ended, first_acts, second_acts, Threads, no_thread, one_more, is_bit_of_any,
  contains-Threads, contains-added,
}
use mtech.Bloom.Locks.{disciplined, ascending, inverted, acts-disciplined, add_acts-ascending}

hashes : (hash1 5 ≡ 5446482) × (hash2 5 ≡ 4056353) × (hash3 5 ≡ 716429)
unfolding hash1 hash2 hash3 bitwise
hashes = (refl, refl, refl)

-- 5 is found after it has been added, 6 is not.
found : (contains (add 5 bloom_init) 5 ≡ true) × (contains (add 5 bloom_init) 6 ≡ false)
unfolding contains perform add_acts bloom_init
found = (refl, refl)

-- Two values that take the same two locks in opposite orders.
opposite : (ascending [] (add_acts 2022) ≡ true) × (ascending [] (add_acts 1313) ≡ false)
unfolding ascending add_acts
opposite = (refl, refl)

-- The acts of two threads by turns.
abbrev alternate : List Act → List Act → List Act
alternate [] ys = ys
alternate (x ∷ xs) [] = x ∷ xs
alternate (x ∷ xs) (y ∷ ys) = x ∷ (y ∷ alternate xs ys)

all_first : (xs : List Act) → Merge xs [] xs
all_first [] = ended
all_first (x ∷ xs) = first_acts x (all_first xs)

alternate-Merge : (xs ys : List Act) → Merge xs ys (alternate xs ys)
alternate-Merge [] [] = ended
alternate-Merge [] (y ∷ ys) = second_acts y (alternate-Merge [] ys)
alternate-Merge (x ∷ xs) [] = first_acts x (all_first xs)
alternate-Merge (x ∷ xs) (y ∷ ys) = first_acts x (second_acts y (alternate-Merge xs ys))

abbrev values : List ℕ
values = 5 ∷ (77 ∷ [])

abbrev by_turns : List Act
by_turns = alternate (add_acts 5) (add_acts 77)

by_turns-Threads : Threads (map add_acts values) by_turns
by_turns-Threads =
    one_more (one_more no_thread (all_first (add_acts 77)))
      (alternate-Merge (add_acts 5) (add_acts 77))

contains-Threads_example : contains (perform by_turns bloom_init) 6 ≡ (
    is_bit_of_any values (hash1 6)
    && (is_bit_of_any values (hash2 6) && is_bit_of_any values (hash3 6)))
contains-Threads_example = contains-Threads values by_turns 6 by_turns-Threads

contains-added_example : contains (perform by_turns bloom_init) 77 ≡ true
contains-added_example = contains-added values by_turns 77 by_turns-Threads refl

acts-disciplined_example :
    (disciplined [] (add_acts 1313) ≡ true) × (disciplined [] (contains_acts 1313) ≡ true)
acts-disciplined_example = acts-disciplined 1313

add_acts-ascending_example :
    (ascending [] (add_acts 1313)
      ≡ not
          (inverted (get_stripe (hash1 1313)) (get_stripe (hash2 1313)) (get_stripe (hash3 1313))))
    × (ascending [] (contains_acts 1313) ≡ true)
add_acts-ascending_example = add_acts-ascending 1313
