-- ===== src/HashTable/Effects.antt =====
-- What one insertion, deletion or lookup of cs636/assignment2/problem1/241110079.h does, in a table
-- without an overloaded bucket.
use mtech.Prelude.{
  ℕ, suc, ◌≤◌, ◌<◌, ◌≡◌, refl, sym, ◌∙◌, ◌==◌, if◌then◌else◌, Bool, true, false, Option, none, some,
  arith, Bool-cases, inl, inr,
}
use mtech.HashTable.State.{word32, bucket_threshold, no_value, KeyValue, pack_key_value, Table}
use mtech.HashTable.Operations.{
  has_key, value_in, push_front, take_out, insert, delete, lookup, is_resize_due,
}
use mtech.HashTable.Chain.{
  key_of-pack_key_value, value_of-pack_key_value, occurrences, value_in-absent, value_in-present,
  occurrences-absent, occurrences-unlink-le, has_key-unlink, value_in-unlink, length-unlink,
}
use mtech.HashTable.Find.{
  IsValid, home, view, find_bucket-insert, find_bucket-has_key, find_bucket-present,
  find_bucket-view,
}

pub calm-no_resize : (t : Table) → t.overloaded_buckets ≡ 0 → is_resize_due t ≡ false
unfolding is_resize_due
calm-no_resize t calm = rw calm (ground arith)

module _ (limit : ℕ) (t : Table) (valid : IsValid limit t) where
  module _ (key value : ℕ) (small : key < word32) (fits : value < word32)
      (room : limit < bucket_threshold)
      (absent : has_key key (t.buckets (home t key)).chain ≡ false) where
    abbrev packed : ℕ
    packed = pack_key_value key value

    pub push_front-IsValid : IsValid (suc limit) (push_front (home t key) packed t)
    unfolding push_front has_key occurrences
    push_front-IsValid =
        let k = key_of-pack_key_value key value small in
        record {
          some_bucket = valid.some_bucket;
          narrow = valid.narrow;
          hashed = valid.hashed;
          counted = λ i. ground (arith, valid.counted i, valid.few i);
          few = λ i. ground (arith, valid.few i);
          calm = ground (arith, valid.calm, valid.counted (home t key), valid.few (home t key));
          placed = λ i q h. ground (arith, valid.placed i q);
          once = λ i q.
              ground (
                arith,
                valid.once i q,
                occurrences-absent key (t.buckets (home t key)).chain absent,
              );
        }

    pub push_front-view :
        (q : ℕ)
        → view (push_front (home t key) packed t) q ≡ (if q == key then some value else view t q)
    unfolding push_front view value_in
    push_front-view q =
        let k = key_of-pack_key_value key value small in
        let v = value_of-pack_key_value key value fits in ground arith

  module _ (key : ℕ) (present : has_key key (t.buckets (home t key)).chain ≡ true) where
    pub take_out-IsValid : limit ≤ bucket_threshold → IsValid limit (take_out (home t key) key t)
    unfolding take_out
    take_out-IsValid h =
        let c = (t.buckets (home t key)).chain in
        let shorter = length-unlink key c present in
        record {
          some_bucket = valid.some_bucket;
          narrow = valid.narrow;
          hashed = valid.hashed;
          counted = λ i. ground (arith, valid.counted i, valid.few i);
          few = λ i. ground (arith, valid.few i);
          calm = ground (arith, valid.calm, valid.counted (home t key), valid.few (home t key));
          placed = λ i q e.
              ground
                (arith, valid.placed i q, has_key-unlink q key c (valid.once (home t key) key));
          once = λ i q. ground (arith, valid.once i q, occurrences-unlink-le q key c);
        }

    pub take_out-view :
        (q : ℕ) → view (take_out (home t key) key t) q ≡ (if q == key then none else view t q)
    unfolding take_out view
    take_out-view q =
        let e =
          value_in-unlink q key (t.buckets (home t key)).chain (valid.once (home t key) key) in
        ground arith

-- A table that stands for a map.
pub record Models (f : ℕ → Option ℕ) (limit : ℕ) (t : Table) : Type 0 where
  pub valid : IsValid limit t
  pub reads : (q : ℕ) → view t q ≡ f q

-- The operations on a map from keys to values.
unfoldable pub put : KeyValue → (ℕ → Option ℕ) → Bool × (ℕ → Option ℕ)
put kv f = elim (f kv.key) [
  | none ↦ (true, λ q. if q == kv.key then some kv.value else f q)
  | some old ↦ (false, f)
]

unfoldable pub drop : ℕ → (ℕ → Option ℕ) → Bool × (ℕ → Option ℕ)
drop key f = elim (f key) [
  | none ↦ (false, f)
  | some old ↦ (true, λ q. if q == key then none else f q)
]

unfoldable pub get : (ℕ → Option ℕ) → ℕ → ℕ
get f key = elim (f key) [ none ↦ no_value | some value ↦ value ]

module _ (f : ℕ → Option ℕ) (limit : ℕ) (t : Table) (models : Models f limit t) where
  abbrev valid : IsValid limit t
  valid = Models.valid models

  weaken : IsValid (suc limit) t
  weaken = record {
    some_bucket = valid.some_bucket;
    narrow = valid.narrow;
    hashed = valid.hashed;
    counted = valid.counted;
    few = λ i. omega (arith, valid.few i);
    calm = valid.calm;
    placed = valid.placed;
    once = valid.once;
  }

  -- A key of the table has a value in the map.
  present_value :
      (key : ℕ) → has_key key (t.buckets (home t key)).chain ≡ true → (v : ℕ) × (f key ≡ some v)
  unfolding view
  present_value key e =
      let (v, found) = value_in-present key _ e in (v, sym (models.reads key) ∙ found)

  absent_value : (key : ℕ) → has_key key (t.buckets (home t key)).chain ≡ false → f key ≡ none
  unfolding view
  absent_value key e = sym (models.reads key) ∙ value_in-absent key _ e

  pub insert-put :
      (kv : KeyValue)
      → kv.key < word32
      → kv.value < word32
      → limit < bucket_threshold
      → ((insert kv t).0 ≡ (put kv f).0) × Models (put kv f).1 (suc limit) (insert kv t).1
  unfolding insert put
  insert-put kv small fits room =
      let key = kv.key in
      elim (Bool-cases (has_key key (t.buckets (home t key)).chain)) [
        | inl e ↦
            let (v, there) = present_value key e in
            rw (find_bucket-insert limit t valid key, e, put, there)
              (refl, record { valid = weaken; reads = models.reads })
        | inr e ↦
            rw (find_bucket-insert limit t valid key, e, put, absent_value key e)
              (
                refl,
                record {
                  valid = push_front-IsValid limit t valid key kv.value small fits room e;
                  reads = λ q. ground (
                    arith,
                    push_front-view limit t valid key kv.value small fits room e q,
                    models.reads q,
                  );
                },
              )
      ]

  pub delete-drop :
      (key : ℕ)
      → limit ≤ bucket_threshold
      → ((delete key t).0 ≡ (drop key f).0) × Models (drop key f).1 limit (delete key t).1
  unfolding delete drop
  delete-drop key room =
      let same = find_bucket-has_key limit t valid key in
      elim (Bool-cases (has_key key (t.buckets (home t key)).chain)) [
        | inl e ↦
            let (v, there) = present_value key e in
            rw (find_bucket-present limit t valid key e, e, drop, there)
              (
                refl,
                record {
                  valid = take_out-IsValid limit t valid key e room;
                  reads = λ q. ground (arith, take_out-view limit t valid key e q, models.reads q);
                },
              )
        | inr e ↦ rw (same, e, drop, absent_value key e) (refl, models)
      ]

  pub lookup-get : (key : ℕ) → lookup t key ≡ get f key
  unfolding lookup get
  lookup-get key = rw (lookup, find_bucket-view limit t valid key, models.reads key, get) refl
