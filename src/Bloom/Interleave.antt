-- ===== src/Bloom/Interleave.antt =====
-- Adds of several threads at once.
use mtech.Prelude.{
  ℕ, ◌≡◌, refl, ◌∙◌, Bool, true, false, ◌&&◌, ◌||◌, ◌==◌, List, [], ◌∷◌, map, arith, ℕ_discrete,
}
use mtech.Bloom.Filter.{
  hash1, hash2, hash3, Act, lock, unlock, set, read, bloom_init, perform, add_acts, contains,
}
use mtech.Bloom.Membership.{sets, sets-add, contains-perform}

-- The acts of two threads in some order that keeps each thread's own.
pub data Merge : List Act → List Act → List Act → Type 0 where
  ended : Merge [] [] []
  first_acts : {xs ys zs : List Act} (a : Act) → Merge xs ys zs → Merge (a ∷ xs) ys (a ∷ zs)
  second_acts : {xs ys zs : List Act} (a : Act) → Merge xs ys zs → Merge xs (a ∷ ys) (a ∷ zs)

-- The acts of any number of threads.
pub data Threads : List (List Act) → List Act → Type 0 where
  no_thread : Threads [] []
  one_more :
      {xs ys zs : List Act} {rest : List (List Act)}
      → Threads rest ys
      → Merge xs ys zs
      → Threads (xs ∷ rest) zs

-- Whether the act sets the bit.
abbrev act_sets : Act → ℕ → Bool
act_sets (lock i) p = false
act_sets (unlock i) p = false
act_sets (set h) p = p == h
act_sets (read h) p = false

sets-cons : (a : Act) (acts : List Act) (p : ℕ) → sets (a ∷ acts) p ≡ (act_sets a p || sets acts p)
sets-cons (lock i) acts p = refl
sets-cons (unlock i) acts p = refl
sets-cons (set h) acts p = refl
sets-cons (read h) acts p = refl

sets-Merge : (xs ys zs : List Act) (p : ℕ) → Merge xs ys zs → sets zs p ≡ (sets xs p || sets ys p)
sets-Merge _ _ _ p ended = refl
sets-Merge _ _ _ p (first_acts {xs} {ys} {zs} a m) =
    let rest = sets-Merge xs ys zs p m in
    let e = sets-cons a zs p in let e' = sets-cons a xs p in ground arith
sets-Merge _ _ _ p (second_acts {xs} {ys} {zs} a m) =
    let rest = sets-Merge xs ys zs p m in
    let e = sets-cons a zs p in let e' = sets-cons a ys p in ground arith

-- Whether the bit is one of a value's, or of one of several.
abbrev pub is_bit_of : ℕ → ℕ → Bool
is_bit_of p value = p == hash1 value || (p == hash2 value || p == hash3 value)

abbrev pub is_bit_of_any : List ℕ → ℕ → Bool
is_bit_of_any [] p = false
is_bit_of_any (value ∷ values) p = is_bit_of p value || is_bit_of_any values p

sets-Threads :
    (values : List ℕ) (trace : List Act) (p : ℕ)
    → Threads (map add_acts values) trace
    → sets trace p ≡ is_bit_of_any values p
sets-Threads [] _ p no_thread = refl
sets-Threads (value ∷ values) _ p (one_more {xs} {ys} {zs} t m) =
    let rest = sets-Threads values ys p t in
    let merged = sets-Merge (add_acts value) ys zs p m in let own = sets-add value p in ground arith

-- After adds of any values by as many threads, in any interleaving of what they do, `contains` answers
-- whether each of the three bits of the value is a bit of an added one.
pub contains-Threads :
    (values : List ℕ) (trace : List Act) (value : ℕ)
    → Threads (map add_acts values) trace
    → contains (perform trace bloom_init) value ≡ (
        is_bit_of_any values (hash1 value)
        && (is_bit_of_any values (hash2 value) && is_bit_of_any values (hash3 value)))
contains-Threads values trace value t =
    let e1 = sets-Threads values trace (hash1 value) t in
    let e2 = sets-Threads values trace (hash2 value) t in
    let e3 = sets-Threads values trace (hash3 value) t in
    contains-perform trace value ∙ cc (e1, e2, e3)

abbrev pub is_among : ℕ → List ℕ → Bool
is_among value [] = false
is_among value (other ∷ others) = value == other || is_among value others

is_among-bit :
    (f : ℕ → ℕ)
    → ((v : ℕ) → is_bit_of (f v) v ≡ true)
    → (value : ℕ) (values : List ℕ) → is_among value values ≡ true
    → is_bit_of_any values (f value) ≡ true
is_among-bit f own value [] h = absurd (ground arith)
is_among-bit f own value (other ∷ others) h = elim (ℕ_discrete value other) [
  | yes e ↦ rw (← e) (let here = own value in ground arith)
  | no ne ↦ let rest = is_among-bit f own value others (ground arith) in ground arith
]

-- No false negatives: an added value is found, whatever else is added and in whatever interleaving.
pub contains-added :
    (values : List ℕ) (trace : List Act) (value : ℕ)
    → Threads (map add_acts values) trace
    → is_among value values ≡ true
    → contains (perform trace bloom_init) value ≡ true
contains-added values trace value t h =
    let b1 = is_among-bit hash1 (λ v. ground arith) value values h in
    let b2 = is_among-bit hash2 (λ v. ground arith) value values h in
    let b3 = is_among-bit hash3 (λ v. ground arith) value values h in
    contains-Threads values trace value t ∙ ground arith
