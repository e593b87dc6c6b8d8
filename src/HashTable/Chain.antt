-- ===== src/HashTable/Chain.antt =====
-- One chain of cs636/assignment2/problem1/241110079.h.
use mtech.Prelude.{
  ℕ, suc, ◌+◌, ◌≤◌, ◌<◌, ◌≡◌, refl, ◌==◌, if◌then◌else◌, true, false, List, [], ◌∷◌, length, none,
  some, arith, Bool-cases, inl, inr,
}
use mtech.HashTable.State.{word32, pack_key_value, key_of, value_of}
use mtech.HashTable.Operations.{has_key, value_in, unlink}

pub key_of-pack_key_value : (key value : ℕ) → key < word32 → key_of (pack_key_value key value) ≡ key
unfolding key_of pack_key_value
key_of-pack_key_value key value small = omega arith

pub value_of-pack_key_value :
    (key value : ℕ) → value < word32 → value_of (pack_key_value key value) ≡ value
unfolding value_of pack_key_value
value_of-pack_key_value key value small = omega arith

-- The nodes with the key.
unfoldable pub occurrences : ℕ → List ℕ → ℕ
occurrences key [] = 0
occurrences key (w ∷ ws) = (if key_of w == key then 1 else 0) + occurrences key ws

module _ (q : ℕ) where
  pub value_in-absent : (c : List ℕ) → has_key q c ≡ false → value_in q c ≡ none
  unfolding has_key value_in
  value_in-absent [] h = refl
  value_in-absent (w ∷ ws) h = ground (arith, value_in-absent ws)

  pub value_in-present : (c : List ℕ) → has_key q c ≡ true → (v : ℕ) × (value_in q c ≡ some v)
  unfolding has_key value_in
  value_in-present [] h = absurd (cc)
  value_in-present (w ∷ ws) h = elim (Bool-cases (key_of w == q)) [
    | inl e ↦ (value_of w, rw e refl)
    | inr e ↦ let (v, found) = value_in-present ws (ground arith) in (v, rw e found)
  ]

  pub occurrences-absent : (c : List ℕ) → has_key q c ≡ false → occurrences q c ≡ 0
  unfolding has_key occurrences
  occurrences-absent [] h = refl
  occurrences-absent (w ∷ ws) h = ground (arith, occurrences-absent ws)

  pub has_key-none : (c : List ℕ) → occurrences q c ≡ 0 → has_key q c ≡ false
  unfolding has_key occurrences
  has_key-none [] h = refl
  has_key-none (w ∷ ws) h = ground (arith, has_key-none ws)

  module _ (k : ℕ) where
    pub occurrences-unlink-le : (c : List ℕ) → occurrences q (unlink k c) ≤ occurrences q c
    unfolding unlink occurrences
    occurrences-unlink-le [] = omega arith
    occurrences-unlink-le (w ∷ ws) = ground (arith, occurrences-unlink-le ws)

    pub has_key-unlink :
        (c : List ℕ)
        → occurrences k c ≤ 1
        → has_key q (unlink k c) ≡ (if q == k then false else has_key q c)
    unfolding unlink occurrences has_key
    has_key-unlink [] h = ground arith
    has_key-unlink (w ∷ ws) h = ground (arith, has_key-unlink ws, has_key-none ws)

    pub value_in-unlink :
        (c : List ℕ)
        → occurrences k c ≤ 1
        → value_in q (unlink k c) ≡ (if q == k then none else value_in q c)
    unfolding unlink occurrences value_in
    value_in-unlink [] h = ground arith
    value_in-unlink (w ∷ ws) h =
        ground (arith, value_in-unlink ws, has_key-none ws, value_in-absent ws)

pub length-unlink : (k : ℕ) (c : List ℕ) → has_key k c ≡ true → suc (length (unlink k c)) ≡ length c
unfolding unlink has_key
length-unlink k [] h = absurd (cc)
length-unlink k (w ∷ ws) h = ground (arith, length-unlink k ws)
