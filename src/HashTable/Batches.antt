-- ===== src/HashTable/Batches.antt =====
-- The batch operations of cs636/assignment2/problem1/241110079.h against a map.
use mtech.Prelude.{
  ℕ, suc, ◌+◌, ◌≤◌, ◌<◌, ◌≡◌, refl, subst, Bool, List, [], ◌∷◌, length, map, Option, none, some,
  ◌>>=◌, arith,
}
use mtech.HashTable.State.{
  word32, initial_bucket_count, KeyValue, Pools, Table, Doubles, multiplicative, init_hash_table,
}
use mtech.HashTable.Operations.{
  insert, insert_all, batch_insert, acquire_all, release_rest, batch_delete, batch_lookup, has_key,
  value_in,
}
use mtech.HashTable.Chain.{occurrences}
use mtech.HashTable.Find.{IsValid, view}
use mtech.HashTable.Effects.{
  calm-no_resize, Models, put, drop, get, insert-put, delete-drop, lookup-get,
}

abbrev pub Map : Type 0
Map = ℕ → Option ℕ

-- The batches on a map.
unfoldable pub put_all : List KeyValue → Map → List Bool × Map
put_all [] f = ([], f)
put_all (kv ∷ kvs) f =
    let (success, changed) = put kv f in
    let (results, end) = put_all kvs changed in (success ∷ results, end)

unfoldable pub drop_all : List ℕ → Map → List Bool × Map
drop_all [] f = ([], f)
drop_all (key ∷ keys) f =
    let (success, changed) = drop key f in
    let (results, end) = drop_all keys changed in (success ∷ results, end)

-- A call of a batch operation, and its results.
pub data Call : Type 0 where
  inserts : List KeyValue → Call
  deletes : List ℕ → Call
  lookups : List ℕ → Call

pub data Answer : Type 0 where
  successes : List Bool → Answer
  values : List ℕ → Answer

unfoldable pub perform : Call → Table → Option (Answer × Table)
perform (inserts kvs) t = do (results, end) ← batch_insert kvs t; some (successes results, end)
perform (deletes keys) t = let (results, end) = batch_delete keys t in some (successes results, end)
perform (lookups keys) t = some (values (batch_lookup keys t), t)

unfoldable pub run : List Call → Table → Option (List Answer)
run [] t = some []
run (call ∷ calls) t = do
  (answer, end) ← perform call t
  answers ← run calls end
  some (answer ∷ answers)

unfoldable pub answer_of : Call → Map → Answer × Map
answer_of (inserts kvs) f = let (results, end) = put_all kvs f in (successes results, end)
answer_of (deletes keys) f = let (results, end) = drop_all keys f in (successes results, end)
answer_of (lookups keys) f = (values (map (get f) keys), f)

unfoldable pub answers_of : List Call → Map → List Answer
answers_of [] f = []
answers_of (call ∷ calls) f = let (answer, end) = answer_of call f in answer ∷ answers_of calls end

-- The pairs that a call may insert.
unfoldable pub inserted : Call → ℕ
inserted (inserts kvs) = length kvs
inserted (deletes keys) = 0
inserted (lookups keys) = 0

unfoldable pub total_inserted : List Call → ℕ
total_inserted [] = 0
total_inserted (call ∷ calls) = inserted call + total_inserted calls

-- Keys and values are words of 32 bits.
unfoldable pub AreWords : List KeyValue → Type 0
AreWords [] = Unit {0}
AreWords (kv ∷ kvs) = (kv.key < word32) × (kv.value < word32) × AreWords kvs

unfoldable pub HaveWords : List Call → Type 0
HaveWords [] = Unit {0}
HaveWords (inserts kvs ∷ calls) = AreWords kvs × HaveWords calls
HaveWords (deletes keys ∷ calls) = HaveWords calls
HaveWords (lookups keys ∷ calls) = HaveWords calls

insert_all-put_all :
    (kvs : List KeyValue) (f : Map) (limit : ℕ) (t : Table)
    → Models f limit t
    → AreWords kvs
    → limit + length kvs ≤ 100
    → (t' : Table) × (insert_all kvs t ≡ some ((put_all kvs f).0, t'))
      × Models (put_all kvs f).1 (limit + length kvs) t'
unfolding insert_all put_all AreWords
insert_all-put_all [] f limit t models words room =
    (t, refl, subst (λ n. Models f n t) (omega arith) models)
insert_all-put_all (kv ∷ kvs) f limit t models (small, fits, words) room =
    let (same, next) = insert-put f limit t models kv small fits (omega arith) in
    let (t', run_rest, end) = insert_all-put_all kvs _ (suc limit) _ next words (omega arith) in
    let calm = calm-no_resize (insert kv t).1 (IsValid.calm (Models.valid next)) in
    (
      t',
      rw (run_rest, calm, same) (ground arith),
      subst (λ n. Models (put_all (kv ∷ kvs) f).1 n t') (omega arith) end,
    )

batch_delete-drop_all :
    (keys : List ℕ) (f : Map) (limit : ℕ) (t : Table)
    → Models f limit t
    → limit ≤ 100
    → (t' : Table) × (batch_delete keys t ≡ ((drop_all keys f).0, t'))
      × Models (drop_all keys f).1 limit t'
unfolding batch_delete drop_all
batch_delete-drop_all [] f limit t models room = (t, refl, models)
batch_delete-drop_all (key ∷ keys) f limit t models room =
    let (same, next) = delete-drop f limit t models key room in
    let (t', run_rest, end) = batch_delete-drop_all keys _ limit _ next room in
    (t', rw (run_rest, same) refl, end)

batch_lookup-get :
    (keys : List ℕ) (f : Map) (limit : ℕ) (t : Table)
    → Models f limit t
    → batch_lookup keys t ≡ map (get f) keys
unfolding batch_lookup
batch_lookup-get [] f limit t models = refl
batch_lookup-get (key ∷ keys) f limit t models =
    rw (lookup-get f limit t models key, batch_lookup-get keys f limit t models) refl

-- The pools are no matter to what a table stands for.
Models-pools :
    (f : Map) (limit : ℕ) (t : Table) (pools : Pools)
    → Models f limit t
    → Models f limit (record t { pools = pools })
unfolding view
Models-pools f limit t pools m = record {
  valid = record {
    some_bucket = m.valid.some_bucket;
    narrow = m.valid.narrow;
    hashed = m.valid.hashed;
    counted = m.valid.counted;
    few = m.valid.few;
    calm = m.valid.calm;
    placed = m.valid.placed;
    once = m.valid.once;
  };
  reads = m.reads;
}

perform-answer_of :
    (call : Call) (calls : List Call) (f : Map) (limit : ℕ) (t : Table)
    → Models f limit t
    → HaveWords (call ∷ calls)
    → limit + inserted call ≤ 100
    → (t' : Table) × (perform call t ≡ some ((answer_of call f).0, t'))
      × Models (answer_of call f).1 (limit + inserted call) t'
unfolding perform answer_of inserted HaveWords batch_insert
perform-answer_of (inserts kvs) calls f limit t models (words, others) room =
    let pools = acquire_all (length kvs) t.pools in
    let (t', done, end) =
      insert_all-put_all kvs f limit (record t { pools = pools })
        (Models-pools f limit t pools models) words room in
    let released = release_rest (put_all kvs f).0 t'.pools in
    (
      record t' { pools = released },
      rw (perform, batch_insert, done) refl,
      Models-pools _ _ t' released end,
    )
perform-answer_of (deletes keys) calls f limit t models words room =
    let (t', done, end) = batch_delete-drop_all keys f limit t models (omega arith) in
    (t', rw done refl, subst (λ n. Models (drop_all keys f).1 n t') (omega arith) end)
perform-answer_of (lookups keys) calls f limit t models words room = (
  t,
  rw (batch_lookup-get keys f limit t models) refl,
  subst (λ n. Models f n t) (omega arith) models,
)

rest_words : (call : Call) (calls : List Call) → HaveWords (call ∷ calls) → HaveWords calls
unfolding HaveWords
rest_words (inserts kvs) calls (words, others) = others
rest_words (deletes keys) calls others = others
rest_words (lookups keys) calls others = others

run-answers_of_from :
    (calls : List Call) (f : Map) (limit : ℕ) (t : Table)
    → Models f limit t
    → HaveWords calls
    → limit + total_inserted calls ≤ 100
    → run calls t ≡ some (answers_of calls f)
unfolding run answers_of total_inserted
run-answers_of_from [] f limit t models words room = refl
run-answers_of_from (call ∷ calls) f limit t models words room =
    let (t', done, end) = perform-answer_of call calls f limit t models words (omega arith) in
    let later = run-answers_of_from calls _ _ t' end (rest_words call calls words) (omega arith) in
    rw (done, later) refl

-- The primary hash is a fraction of the number of buckets.
abbrev pub IsFraction : {D : Type 0} → Doubles D → Type 0
IsFraction f = (key n : ℕ) → 0 < n → multiplicative f key n < n

-- When the primary hash is below the number of buckets, and keys and values are words of 32 bits, a
-- new table answers to batches of insertions, deletions and lookups as a map from keys to values
-- does, where an insertion does not replace a value, as long as at most 100 pairs are inserted: no
-- bucket overflows, and the nodes are not moved.
pub run-answers_of :
    {D : Type 0} (f : Doubles D) (pools : Pools)
    → IsFraction f
    → (calls : List Call) → HaveWords calls
    → total_inserted calls ≤ 100
    → run calls (init_hash_table f pools) ≡ some (answers_of calls (λ key. none))
unfolding init_hash_table has_key occurrences view value_in
run-answers_of f pools fraction calls words room =
    run-answers_of_from calls (λ key. none) 0 (init_hash_table f pools)
      (record {
        valid = record {
          some_bucket = omega arith;
          narrow = omega arith;
          hashed = λ key. fraction key initial_bucket_count (omega arith);
          counted = λ i. refl;
          few = λ i. omega arith;
          calm = refl;
          placed = λ i key h. absurd (cc);
          once = λ i key. omega arith;
        };
        reads = λ q. refl;
      })
      words (omega arith)
