-- ===== src/Bloom/Membership.antt =====
-- What the filter holds after any sequence of acts.
use mtech.Prelude.{
  ℕ, ◌/◌, ◌%◌, ◌^◌, ◌≡◌, ◌≢◌, refl, sym, ap, ◌∙◌, Bool, false, not, ◌&&◌, ◌||◌, ◌==◌, List, [], ◌∷◌,
  ◌++◌, arith, ℕ_discrete,
}
use mtech.Prelude.Bits.{
  bitwise, either, digit, digit-bitwise, digit-pow, digit-zero, digit-le, both-flag,
}
use mtech.Bloom.Filter.{
  hash1, hash2, hash3, get_stripe, Act, lock, unlock, set, read, BitArray, bloom_init, set_bit,
  get_bit, perform, locked, add_acts, contains,
}

pub get_bit-digit :
    (h : ℕ) (bits : BitArray) → get_bit h bits ≡ not (digit (h % 8) (bits (h / 8)) == 0)
unfolding get_bit
get_bit-digit h bits = ap not (both-flag 8 (h % 8) (bits (h / 8)) (omega arith))

digit-set_bit :
    (p h : ℕ) (bits : BitArray)
    → not (digit (p % 8) (set_bit h bits (p / 8)) == 0)
      ≡ (not (digit (p % 8) (bits (p / 8)) == 0) || p == h)
unfolding set_bit
digit-set_bit p h bits = elim (ℕ_discrete (h / 8) (p / 8)) [
  | yes e ↦
      let changed = digit-bitwise either 8 (p % 8) (bits (h / 8)) (2 ^ (h % 8)) (omega arith) in
      let mask = digit-pow (p % 8) (h % 8) in
      let small = digit-le (p % 8) (bits (p / 8)) in
      let same_byte = ap (λ i. digit (p % 8) (bits i)) e in
      let same = place e in
      let written : set_bit h bits (p / 8) ≡ bitwise either 8 (bits (h / 8)) (2 ^ (h % 8)) =
        ground arith in
      let at_digit = ap (digit (p % 8)) written in rw (at_digit ∙ changed) (ground arith)
  | no ne ↦ let other : h ≢ p = (λ e. ne (ap (λ i. i / 8) e)) in ground arith
]
  where
    place : h / 8 ≡ p / 8 → (p == h) ≡ (p % 8 == h % 8)
    place e = elim (ℕ_discrete (p % 8) (h % 8)) [
      | yes e' ↦ let both_same : p ≡ h = omega arith in ground arith
      | no ne ↦ let other : p ≢ h = (λ e'. ne (ap (λ i. i % 8) e')) in ground arith
    ]

-- An assignment sets its bit and no other.
get_bit-set_bit :
    (p h : ℕ) (bits : BitArray) → get_bit p (set_bit h bits) ≡ (get_bit p bits || p == h)
get_bit-set_bit p h bits =
    get_bit-digit p (set_bit h bits)
    ∙ (digit-set_bit p h bits ∙ ap (λ b. b || p == h) (sym (get_bit-digit p bits)))

-- Whether one of the acts sets the bit.
abbrev pub sets : List Act → ℕ → Bool
sets [] p = false
sets (lock i ∷ acts) p = sets acts p
sets (unlock i ∷ acts) p = sets acts p
sets (set h ∷ acts) p = p == h || sets acts p
sets (read h ∷ acts) p = sets acts p

get_bit-perform :
    (acts : List Act) (bits : BitArray) (p : ℕ)
    → get_bit p (perform acts bits) ≡ (get_bit p bits || sets acts p)
unfolding perform
get_bit-perform [] bits p = ground arith
get_bit-perform (lock i ∷ acts) bits p = get_bit-perform acts bits p
get_bit-perform (unlock i ∷ acts) bits p = get_bit-perform acts bits p
get_bit-perform (read h ∷ acts) bits p = get_bit-perform acts bits p
get_bit-perform (set h ∷ acts) bits p =
    let rest = get_bit-perform acts (set_bit h bits) p in
    let here = get_bit-set_bit p h bits in ground arith

pub empty-perform : (acts : List Act) (p : ℕ) → get_bit p (perform acts bloom_init) ≡ sets acts p
unfolding bloom_init
empty-perform acts p =
    let start = get_bit-digit p bloom_init in
    let no_digit = digit-zero (p % 8) in let all = get_bit-perform acts bloom_init p in ground arith

-- After any acts on an empty filter, `contains` answers whether all three bits of the value have been
-- set by one of them.
pub contains-perform :
    (acts : List Act) (value : ℕ)
    → contains (perform acts bloom_init) value
      ≡ (sets acts (hash1 value) && (sets acts (hash2 value) && sets acts (hash3 value)))
unfolding contains
contains-perform acts value =
    let e1 = empty-perform acts (hash1 value) in
    let e2 = empty-perform acts (hash2 value) in
    let e3 = empty-perform acts (hash3 value) in cc (e1, e2, e3)

sets-append : (xs ys : List Act) (p : ℕ) → sets (xs ++ ys) p ≡ (sets xs p || sets ys p)
sets-append [] ys p = refl
sets-append (lock i ∷ xs) ys p = sets-append xs ys p
sets-append (unlock i ∷ xs) ys p = sets-append xs ys p
sets-append (read h ∷ xs) ys p = sets-append xs ys p
sets-append (set h ∷ xs) ys p = let rest = sets-append xs ys p in ground arith

-- Locks set no bit.
sets-locked : (i j k : ℕ) (body : List Act) (p : ℕ) → sets (locked i j k body) p ≡ sets body p
unfolding locked
sets-locked i j k body p =
    let one = sets-append body (unlock i ∷ []) p in
    let two : (a b : ℕ) → sets (body ++ (unlock a ∷ (unlock b ∷ []))) p ≡ (sets body p || false) =
      (λ a b. sets-append body (unlock a ∷ (unlock b ∷ [])) p) in
    let all = sets-append body (unlock k ∷ (unlock j ∷ (unlock i ∷ []))) p in
    ground (arith, one, two k i, two j i, two i j, all)

pub sets-add :
    (value p : ℕ)
    → sets (add_acts value) p ≡ (p == hash1 value || (p == hash2 value || p == hash3 value))
unfolding add_acts
sets-add value p =
    sets-locked (get_stripe (hash1 value)) (get_stripe (hash2 value)) (get_stripe (hash3 value))
      (set (hash1 value) ∷ (set (hash2 value) ∷ (set (hash3 value) ∷ []))) p
    ∙ ground arith
