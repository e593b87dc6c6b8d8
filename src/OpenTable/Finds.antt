-- ===== src/OpenTable/Finds.antt =====
-- What a lookup finds after an insertion, in cs610/assignment5/problem1/hash_table.cpp.
use mtech.Prelude.{
  ℕ, zero, suc, ◌+◌, ◌%◌, ◌<◌, ◌≡◌, ◌≢◌, refl, ◌==◌, if◌then◌else◌, true, false, Option, none, some,
  arith, inl, inr, Option-cases, ℕ_discrete, Bool-cases,
}
use mtech.OpenTable.State.{
  word32, Table, murmur_hash, secondary_hash, pack_key_value, key_of, value_of,
}
use mtech.OpenTable.Operations.{is_free, free_slot, fill, insert_pair, key_slot, lookup}

key_of-pack : (key value : ℕ) → key < word32 → key_of (pack_key_value key value) ≡ key
unfolding key_of pack_key_value
key_of-pack key value small = omega arith

value_of-pack : (key value : ℕ) → value < word32 → value_of (pack_key_value key value) ≡ value
unfolding value_of pack_key_value
value_of-pack key value small = omega arith

-- A slot that was never filled has no pair.
abbrev pub IsClean : Table → Type 0
IsClean t = (i : ℕ) → t.is_occupied i ≡ false → t.table i ≡ 0

-- The key of a free slot is 0.
free-key_of : (t : Table) (i : ℕ) → IsClean t → is_free t i ≡ true → key_of (t.table i) ≡ 0
unfolding is_free key_of
free-key_of t i clean free = elim (Bool-cases (t.is_occupied i)) [
  | inl e ↦ ground arith
  | inr e ↦ let z = clean i e in ground arith
]

free_slot-is_free :
    (left : ℕ) (t : Table) (index step f : ℕ)
    → free_slot left t index step ≡ some f
    → is_free t f ≡ true
unfolding free_slot
free_slot-is_free zero t index step f e = absurd (cc)
free_slot-is_free (suc left) t index step f e =
    ground (arith, free_slot-is_free left t ((index + step) % t.capacity) step f)

key_slot-key :
    (left : ℕ) (t : Table) (q index step j : ℕ)
    → key_slot left t q index step ≡ some j
    → key_of (t.table j) ≡ q
unfolding key_slot
key_slot-key zero t q index step j e = absurd (cc)
key_slot-key (suc left) t q index step j e =
    ground (arith, key_slot-key left t q ((index + step) % t.capacity) step j)

module _ (t : Table) (f packed q : ℕ) where
  -- A pair with another key, over a slot with another key, is no matter to the search.
  key_slot-fill_ne :
      (left index step : ℕ)
      → key_of packed ≢ q
      → key_of (t.table f) ≢ q
      → key_slot left (fill f packed t) q index step ≡ key_slot left t q index step
  unfolding key_slot fill
  key_slot-fill_ne zero index step a b = refl
  key_slot-fill_ne (suc left) index step a b =
      ground (arith, key_slot-fill_ne left ((index + step) % t.capacity) step a b)

  -- The search for the key of a new pair ends at it.
  key_slot-fill_self :
      (left index step : ℕ)
      → key_of packed ≡ q
      → key_slot left t q index step ≡ none
      → free_slot left t index step ≡ some f
      → key_slot left (fill f packed t) q index step ≡ some f
  unfolding key_slot fill free_slot
  key_slot-fill_self zero index step a absent e = absurd (cc)
  key_slot-fill_self (suc left) index step a absent e =
      ground (arith, key_slot-fill_self left ((index + step) % t.capacity) step a)

-- What the search of `lookup` gives.
abbrev pub search : Table → ℕ → Option ℕ
search t key =
    key_slot t.capacity t key (murmur_hash key t.capacity) (secondary_hash key t.capacity)

module _ (t : Table) (f packed q : ℕ) where
  lookup-fill_ne :
      key_of packed ≢ q → key_of (t.table f) ≢ q → lookup (fill f packed t) q ≡ lookup t q
  unfolding lookup fill
  lookup-fill_ne a b =
      let m = murmur_hash q t.capacity in
      let step = secondary_hash q t.capacity in
      let same = key_slot-fill_ne t f packed q t.capacity m step a b in
      elim (Option-cases (search t q)) [
        | inl e ↦ rw (lookup, same, e) refl
        | inr (j, e) ↦
            let key = key_slot-key t.capacity t q m step j e in rw (lookup, same, e) (ground arith)
      ]

  lookup-fill_self :
      key_of packed ≡ q
      → search t q ≡ none
      → free_slot t.capacity t (murmur_hash q t.capacity) (secondary_hash q t.capacity) ≡ some f
      → lookup (fill f packed t) q ≡ value_of packed
  unfolding lookup fill
  lookup-fill_self a absent e =
      let found = key_slot-fill_self t f packed q t.capacity _ _ a absent e in
      rw (lookup, found) (ground arith)

-- When slots that were never filled have no pair, an insertion of a new key that is not 0, without a
-- resize, that returns true makes a lookup of the key return its value, and leaves what a lookup of
-- any other key but 0 returns.
pub insert_pair-lookup :
    (t : Table) (key value q : ℕ)
    → IsClean t
    → key < word32
    → value < word32
    → key ≢ 0
    → q ≢ 0
    → search t key ≡ none
    → (insert_pair key value t).0 ≡ true
    → lookup (insert_pair key value t).1 q ≡ (if q == key then value else lookup t q)
unfolding insert_pair
insert_pair-lookup t key value q clean small fits some_key some_q absent success =
    let m = murmur_hash key t.capacity in
    let step = secondary_hash key t.capacity in
    let p = pack_key_value key value in
    let k = key_of-pack key value small in
    let v = value_of-pack key value fits in
    elim (Option-cases (free_slot t.capacity t m step)) [
      | inl e ↦ absurd (full e)
      | inr (f, e) ↦
          let zero_key = free-key_of t f clean (free_slot-is_free t.capacity t m step f e) in
          elim (ℕ_discrete q key) [
            | yes same ↦
                let found = lookup-fill_self t f p key k absent e in
                rw (insert_pair, e, same) (ground arith)
            | no other ↦
                let found = lookup-fill_ne t f p q (ground arith) (ground arith) in
                rw (insert_pair, e) (ground arith)
          ]
    ]
  where
    full :
        free_slot t.capacity t (murmur_hash key t.capacity) (secondary_hash key t.capacity) ≡ none
        → ⊥
    full e = ground (arith, rw (insert_pair, e) at success)
