-- ===== src/HashTable/Operations.antt =====
-- Insertion, deletion and lookup of cs636/assignment2/problem1/241110079.h. The iterations of a
-- parallel loop are one after the other.
use mtech.Prelude.{
  ℕ, zero, suc, ◌+◌, ◌-◌, ◌*◌, ◌%◌, ◌==◌, ltb, if◌then◌else◌, Bool, true, false, ◌&&◌, ◌||◌, List,
  [], ◌∷◌, map, length, Option, none, some,
}
use mtech.Prelude.Family.{update}
use mtech.HashTable.State.{
  word32, bucket_threshold, global_threshold, no_value, KeyValue, pack_key_value, key_of, value_of,
  Pools, Table, acquire_node, release_node,
}

-- Whether the walk along a chain finds the key.
unfoldable pub has_key : ℕ → List ℕ → Bool
has_key key [] = false
has_key key (w ∷ ws) = if key_of w == key then true else has_key key ws

-- The value of the first node with the key.
unfoldable pub value_in : ℕ → List ℕ → Option ℕ
value_in key [] = none
value_in key (w ∷ ws) = if key_of w == key then some (value_of w) else value_in key ws

-- The first node with the key is unlinked.
unfoldable pub unlink : ℕ → List ℕ → List ℕ
unlink key [] = []
unlink key (w ∷ ws) = if key_of w == key then ws else w ∷ unlink key ws

-- The bucket of an attempt, in 32 bits.
unfoldable pub probe : Table → ℕ → ℕ → ℕ
probe t key attempts =
    (t.primary_hash key t.bucket_count + attempts * t.secondary_hash key t.bucket_count)
    % word32
    % t.bucket_count

-- The loop of `find_bucket` for a key that must be there, with the attempts that are left.
unfoldable pub find_from : ℕ → Table → ℕ → ℕ
find_from zero t key = t.primary_hash key t.bucket_count
find_from (suc left) t key =
    let index = probe t key (t.bucket_count - suc left) in
    let later = find_from left t key in if has_key key (t.buckets index).chain then index else later

unfoldable pub find_bucket : Table → ℕ → Bool → ℕ
find_bucket t key false = find_from t.bucket_count t key
find_bucket t key true =
    if t.bucket_count == 0 then t.primary_hash key t.bucket_count else probe t key 0

-- The test of `check_and_resize`. A quarter of the size is exact as a float.
unfoldable pub is_resize_due : Table → Bool
is_resize_due t =
    ltb t.bucket_count (4 * t.overloaded_buckets)
    || (ltb 0 t.overloaded_buckets && ltb 0 global_threshold)

-- A node is put at the head of a chain, and the bucket counted when it crosses the threshold.
unfoldable pub push_front : ℕ → ℕ → Table → Table
push_front index packed t =
    let b = t.buckets index in
    record t {
      buckets =
          update t.buckets index
            (record { chain = packed ∷ b.chain; count = (b.count + 1) % word32 });
      overloaded_buckets =
          if b.count == bucket_threshold
          then (t.overloaded_buckets + 1) % word32
          else t.overloaded_buckets;
    }

-- An iteration of the second loop of `batch_insert`, before its call of `check_and_resize`.
unfoldable pub insert : KeyValue → Table → Bool × Table
insert kv t =
    let index = find_bucket t kv.key true in
    if has_key kv.key (t.buckets index).chain
    then (false, t)
    else (true, push_front index (pack_key_value kv.key kv.value) t)

-- The second loop of `batch_insert`; `none` when `check_and_resize` starts to move the nodes.
unfoldable pub insert_all : List KeyValue → Table → Option (List Bool × Table)
insert_all [] t = some ([], t)
insert_all (kv ∷ kvs) t =
    let (success, inserted) = insert kv t in
    let later = insert_all kvs inserted in
    if success && is_resize_due inserted
    then none
    else elim later [ none ↦ none | some (results, end) ↦ some (success ∷ results, end) ]

-- The first loop of `batch_insert`.
unfoldable pub acquire_all : ℕ → Pools → Pools
acquire_all zero p = p
acquire_all (suc n) p = acquire_all n (acquire_node p)

-- The last loop of `batch_insert`: the nodes that were not linked are released.
unfoldable pub release_rest : List Bool → Pools → Pools
release_rest [] p = p
release_rest (success ∷ results) p = release_rest results (if success then p else release_node p)

unfoldable pub batch_insert : List KeyValue → Table → Option (List Bool × Table)
batch_insert kvs t = elim (insert_all kvs (record t { pools = acquire_all (length kvs) t.pools })) [
  | none ↦ none
  | some (results, end) ↦ some (results, record end { pools = release_rest results end.pools })
]

-- A node is taken out of a chain, and the bucket not counted when it drops to the threshold.
unfoldable pub take_out : ℕ → ℕ → Table → Table
take_out index key t =
    let b = t.buckets index in
    record t {
      buckets =
          update t.buckets index
            (record { chain = unlink key b.chain; count = (b.count + (word32 - 1)) % word32 });
      overloaded_buckets =
          if b.count == bucket_threshold + 1
          then (t.overloaded_buckets + (word32 - 1)) % word32
          else t.overloaded_buckets;
      pools = release_node t.pools;
    }

-- An iteration of `batch_delete`.
unfoldable pub delete : ℕ → Table → Bool × Table
delete key t =
    let index = find_bucket t key false in
    if has_key key (t.buckets index).chain then (true, take_out index key t) else (false, t)

unfoldable pub batch_delete : List ℕ → Table → List Bool × Table
batch_delete [] t = ([], t)
batch_delete (key ∷ keys) t =
    let (success, deleted) = delete key t in
    let (results, end) = batch_delete keys deleted in (success ∷ results, end)

-- An iteration of `batch_lookup`.
unfoldable pub lookup : Table → ℕ → ℕ
lookup t key = elim (value_in key (t.buckets (find_bucket t key false)).chain) [
  | none ↦ no_value
  | some value ↦ value
]

unfoldable pub batch_lookup : List ℕ → Table → List ℕ
batch_lookup keys t = map (lookup t) keys
