-- ===== src/HashTable/Nodes.antt =====
-- The nodes of cs636/assignment2/problem1/241110079.h: none is lost by a batch.
use native.Mathlib.Nat.{mod-lt}
use mtech.Prelude.{
  ℕ, zero, suc, ◌+◌, ◌-◌, ◌%◌, ◌<◌, ◌≡◌, refl, subst, if◌then◌else◌, Bool, true, false, List, [],
  ◌∷◌, length, Option, some, none, arith, Bool-cases, inl, inr,
}
use mtech.Prelude.Family.{total, total-update}
use mtech.HashTable.State.{
  word32, KeyValue, pack_key_value, Bucket, Pools, Table, acquire_node, release_node,
}
use mtech.HashTable.Operations.{
  has_key, unlink, probe, find_from, find_bucket, push_front, insert, insert_all, acquire_all,
  release_rest, batch_insert, take_out, delete, batch_delete,
}
use mtech.HashTable.Chain.{length-unlink}

abbrev pub chain_length : ℕ → Bucket → ℕ
chain_length i b = length b.chain

-- The nodes in the chains.
unfoldable pub nodes_in : Table → ℕ
nodes_in t = total chain_length t.bucket_count t.buckets

-- Every node that was made is in a pool, in a chain, or one of the `held` that a batch has.
unfoldable pub Balanced : ℕ → Table → Type 0
Balanced held t = t.pools.thread_local_pool + t.pools.node_pool + nodes_in t + held ≡ t.pools.made

acquire_all-balance :
    (n : ℕ) (p : Pools)
    → (acquire_all n p).thread_local_pool + (acquire_all n p).node_pool + n + p.made
      ≡ p.thread_local_pool + p.node_pool + (acquire_all n p).made
unfolding acquire_all acquire_node
acquire_all-balance zero p = omega arith
acquire_all-balance (suc n) p = let rest = acquire_all-balance n (acquire_node p) in ground arith

unfoldable failures : List Bool → ℕ
failures [] = 0
failures (success ∷ results) = (if success then 0 else 1) + failures results

release_rest-balance :
    (results : List Bool) (p : Pools)
    → ((release_rest results p).thread_local_pool ≡ p.thread_local_pool + failures results)
      × ((release_rest results p).node_pool ≡ p.node_pool)
      × ((release_rest results p).made ≡ p.made)
unfolding release_rest release_node failures
release_rest-balance [] p = (omega arith, refl, refl)
release_rest-balance (true ∷ results) p =
    let (a, b, c) = release_rest-balance results p in (omega (arith, a), b, c)
release_rest-balance (false ∷ results) p =
    let (a, b, c) = release_rest-balance results (release_node p) in (omega (arith, a), b, c)

module _ (t : Table) (some_bucket : 0 < t.bucket_count) where
  probe_lt : (key attempts : ℕ) → probe t key attempts < t.bucket_count
  unfolding probe
  probe_lt key attempts = mod-lt _ some_bucket

  insert_lt : (key : ℕ) → find_bucket t key true < t.bucket_count
  unfolding find_bucket
  insert_lt key = let h = probe_lt key 0 in ground arith

  module _ (hashed : (key : ℕ) → t.primary_hash key t.bucket_count < t.bucket_count) where
    find_from_lt : (left key : ℕ) → find_from left t key < t.bucket_count
    unfolding find_from
    find_from_lt zero key = hashed key
    find_from_lt (suc left) key =
        ground (arith, find_from_lt left key, probe_lt key (t.bucket_count - suc left))

  push_front-nodes :
      (index packed : ℕ)
      → index < t.bucket_count
      → nodes_in (push_front index packed t) ≡ nodes_in t + 1
  unfolding nodes_in push_front
  push_front-nodes index packed below = omega (
    arith,
    total-update chain_length t.buckets index t.bucket_count
        (record {
          chain = packed ∷ (t.buckets index).chain;
          count = ((t.buckets index).count + 1) % word32;
        })
        below,
  )

  take_out-nodes :
      (index key : ℕ)
      → index < t.bucket_count
      → has_key key (t.buckets index).chain ≡ true
      → nodes_in (take_out index key t) + 1 ≡ nodes_in t
  unfolding nodes_in take_out
  take_out-nodes index key below there =
      let shorter = length-unlink key (t.buckets index).chain there in
      omega (
        arith,
        total-update chain_length t.buckets index t.bucket_count
            (record {
              chain = unlink key (t.buckets index).chain;
              count = ((t.buckets index).count + (word32 - 1)) % word32;
            })
            below,
      )

insert-Balanced :
    (held : ℕ) (kv : KeyValue) (t : Table)
    → 0 < t.bucket_count
    → Balanced (suc held) t
    → (0 < (insert kv t).1.bucket_count)
      × Balanced (held + (if (insert kv t).0 then 0 else 1)) (insert kv t).1
unfolding insert Balanced push_front
insert-Balanced held kv t some_bucket balance =
    let index = find_bucket t kv.key true in
    let added =
      push_front-nodes t some_bucket index (pack_key_value kv.key kv.value)
        (insert_lt t some_bucket kv.key) in
    elim (Bool-cases (has_key kv.key (t.buckets index).chain)) [
      | inl e ↦ rw e (some_bucket, omega arith)
      | inr e ↦ rw e (some_bucket, omega arith)
    ]

-- What is left of `held` nodes after the loop, if it ends.
unfoldable After : ℕ → Option (List Bool × Table) → Type 0
After held none = Unit {0}
After held (some (results, end)) = Balanced (failures results + held) end

cons-After :
    (resizes success : Bool) (held : ℕ) (later : Option (List Bool × Table))
    → After (held + (if success then 0 else 1)) later
    → After held (
        if resizes
        then none
        else elim later [ none ↦ none | some (results, end) ↦ some (success ∷ results, end) ])
unfolding After failures Balanced
cons-After true success held later h = tt
cons-After false success held none h = tt
cons-After false success held (some (results, end)) h = ground arith

insert_all-After :
    (kvs : List KeyValue) (held : ℕ) (t : Table)
    → 0 < t.bucket_count
    → Balanced (length kvs + held) t
    → After held (insert_all kvs t)
unfolding insert_all After failures
insert_all-After [] held t some_bucket balance = balance
insert_all-After (kv ∷ kvs) held t some_bucket balance =
    let (still, next) =
      insert-Balanced (length kvs + held) kv t some_bucket
        (subst (λ n. Balanced n t) (omega arith) balance) in
    cons-After _ (insert kv t).0 held _
      (insert_all-After kvs _ _ still (subst (λ n. Balanced n (insert kv t).1) (omega arith) next))

module _ (t : Table) (some_bucket : 0 < t.bucket_count) (balance : Balanced 0 t) where
  acquired : (n : ℕ) → Balanced n (record t { pools = acquire_all n t.pools })
  unfolding Balanced nodes_in
  acquired n = omega (arith, acquire_all-balance n t.pools)

  released :
      (o : Option (List Bool × Table)) (results : List Bool) (end : Table)
      → After 0 o
      → ◌≡◌ {A = Option (List Bool × Table)}
          (elim o [
            | none ↦ none
            | some (rs, e) ↦ some (rs, record e { pools = release_rest rs e.pools })
          ])
          (some (results, end))
      → Balanced 0 end
  unfolding After Balanced nodes_in
  released none results end h e = absurd (cc)
  released (some (rs, last)) results end h e =
      let (a, b, c) = release_rest-balance rs last.pools in
      let ends : record last { pools = release_rest rs last.pools } ≡ end = cc in
      subst (Balanced 0) ends (omega arith)

  -- A batch of insertions that ends without a resize loses no node: when every node that was made is
  -- in a chain or in a pool before it, so it is after it, also the nodes of keys that were there.
  pub batch_insert-Balanced :
      (kvs : List KeyValue) (results : List Bool) (end : Table)
      → batch_insert kvs t ≡ some (results, end)
      → Balanced 0 end
  unfolding batch_insert
  batch_insert-Balanced kvs results end e =
      released _ results end
        (insert_all-After kvs 0 _ some_bucket (
          subst (λ n. Balanced n (record t { pools = acquire_all (length kvs) t.pools }))
            (omega arith) (acquired (length kvs))))
        e

module _ (key : ℕ) (t : Table) (some_bucket : 0 < t.bucket_count)
    (hashed : (k : ℕ) → t.primary_hash k t.bucket_count < t.bucket_count) where
  find_lt : find_bucket t key false < t.bucket_count
  unfolding find_bucket
  find_lt = find_from_lt t some_bucket hashed t.bucket_count key

  delete-Balanced :
      Balanced 0 t
      → (0 < (delete key t).1.bucket_count)
        × ((k : ℕ)
            → (delete key t).1.primary_hash k (delete key t).1.bucket_count
              < (delete key t).1.bucket_count)
        × Balanced 0 (delete key t).1
  unfolding delete take_out release_node Balanced
  delete-Balanced balance =
      let index = find_bucket t key false in
      elim (Bool-cases (has_key key (t.buckets index).chain)) [
        | inl e ↦
            let fewer = take_out-nodes t some_bucket index key find_lt e in
            rw e (some_bucket, hashed, omega arith)
        | inr e ↦ rw e (some_bucket, hashed, balance)
      ]

-- A batch of deletions loses no node.
pub batch_delete-Balanced :
    (keys : List ℕ) (t : Table)
    → 0 < t.bucket_count
    → ((key : ℕ) → t.primary_hash key t.bucket_count < t.bucket_count)
    → Balanced 0 t
    → Balanced 0 (batch_delete keys t).1
unfolding batch_delete
batch_delete-Balanced [] t some_bucket hashed balance = balance
batch_delete-Balanced (key ∷ keys) t some_bucket hashed balance =
    let (still, hash, next) = delete-Balanced key t some_bucket hashed balance in
    batch_delete-Balanced keys (delete key t).1 still hash next
