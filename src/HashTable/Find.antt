-- ===== src/HashTable/Find.antt =====
-- `find_bucket` of cs636/assignment2/problem1/241110079.h, in a table without an overloaded bucket.
use native.Mathlib.Nat.{mod-eq_of_lt, zero-mul}
use mtech.Prelude.{
  ℕ, zero, suc, ◌+◌, ◌-◌, ◌*◌, ◌%◌, ◌≤◌, ◌<◌, ◌≡◌, refl, sym, ◌∙◌, ap, true, false, length, Option,
  arith, Bool-cases, inl, inr,
}
use mtech.HashTable.State.{word32, Table}
use mtech.HashTable.Operations.{has_key, value_in, probe, find_from, find_bucket}
use mtech.HashTable.Chain.{occurrences, value_in-absent}

-- A chain has at most `limit` nodes, no key twice, and keys only of this bucket.
pub record IsValid (limit : ℕ) (t : Table) : Type 0 where
  pub some_bucket : 0 < t.bucket_count
  pub narrow : t.bucket_count ≤ word32
  pub hashed : (key : ℕ) → t.primary_hash key t.bucket_count < t.bucket_count
  pub counted : (i : ℕ) → (t.buckets i).count ≡ length (t.buckets i).chain
  pub few : (i : ℕ) → length (t.buckets i).chain ≤ limit
  pub calm : t.overloaded_buckets ≡ 0
  pub placed :
      (i key : ℕ) → has_key key (t.buckets i).chain ≡ true → t.primary_hash key t.bucket_count ≡ i
  pub once : (i key : ℕ) → occurrences key (t.buckets i).chain ≤ 1

abbrev pub home : Table → ℕ → ℕ
home t key = t.primary_hash key t.bucket_count

-- What a key is mapped to.
unfoldable pub view : Table → ℕ → Option ℕ
view t key = value_in key (t.buckets (home t key)).chain

module _ (limit : ℕ) (t : Table) (valid : IsValid limit t) (key : ℕ) where
  first_probe : probe t key 0 ≡ home t key
  unfolding probe
  first_probe =
      let h = valid.hashed key in
      let n = valid.narrow in
      let e : home t key + 0 * t.secondary_hash key t.bucket_count ≡ home t key =
        ap (λ k. home t key + k) (zero-mul (t.secondary_hash key t.bucket_count)) ∙ omega arith in
      ap (λ k. k % word32 % t.bucket_count) e
      ∙ (ap (λ k. k % t.bucket_count) (mod-eq_of_lt {n = home t key} {m = word32} (omega arith))
          ∙ mod-eq_of_lt h)

  pub find_bucket-insert : find_bucket t key true ≡ home t key
  unfolding find_bucket
  find_bucket-insert = let p = valid.some_bucket in let first = first_probe in ground arith

  pub absent-everywhere :
      has_key key (t.buckets (home t key)).chain ≡ false
      → (i : ℕ) → has_key key (t.buckets i).chain ≡ false
  absent-everywhere h i = elim (Bool-cases (has_key key (t.buckets i).chain)) [
    | inl e ↦ absurd (ground (arith, valid.placed i key e))
    | inr e ↦ e
  ]

  first_turn :
      (n : ℕ)
      → 0 < n
      → n ≡ t.bucket_count
      → has_key key (t.buckets (home t key)).chain ≡ true
      → find_from n t key ≡ home t key
  unfolding find_from
  first_turn zero positive e h = absurd (omega arith)
  first_turn (suc left) positive e h =
      let start : t.bucket_count - suc left ≡ 0 = omega arith in rw (start, first_probe, h) refl

  -- A key that is there is found at the first attempt.
  pub find_bucket-present :
      has_key key (t.buckets (home t key)).chain ≡ true → find_bucket t key false ≡ home t key
  unfolding find_bucket
  find_bucket-present h = first_turn t.bucket_count valid.some_bucket refl h

  -- Whatever bucket `find_bucket` gives, its chain says of the key what the table says.
  pub find_bucket-has_key :
      has_key key (t.buckets (find_bucket t key false)).chain
      ≡ has_key key (t.buckets (home t key)).chain
  find_bucket-has_key = elim (Bool-cases (has_key key (t.buckets (home t key)).chain)) [
    | inl e ↦ rw (find_bucket-present e) refl
    | inr e ↦ absent-everywhere e _ ∙ sym e
  ]

  pub find_bucket-view : value_in key (t.buckets (find_bucket t key false)).chain ≡ view t key
  unfolding view
  find_bucket-view = elim (Bool-cases (has_key key (t.buckets (home t key)).chain)) [
    | inl e ↦ rw (find_bucket-present e) refl
    | inr e ↦ value_in-absent key _ (absent-everywhere e _) ∙ sym (value_in-absent key _ e)
  ]
