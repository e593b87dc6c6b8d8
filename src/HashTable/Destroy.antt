-- ===== src/HashTable/Destroy.antt =====
-- `destroy_hash_table` of cs636/assignment2/problem1/241110079.h.
use mtech.Prelude.{ℕ, zero, suc, ◌+◌, ◌≡◌, refl, List, [], ◌∷◌, length, arith}
use mtech.Prelude.Family.{total}
use mtech.HashTable.State.{Bucket, Pools, Table, release_node}
use mtech.HashTable.Nodes.{chain_length, nodes_in, Balanced}

-- The nodes of a chain are released, one after the other.
unfoldable pub release_chain : List ℕ → Pools → Pools
release_chain [] p = p
release_chain (w ∷ ws) p = release_chain ws (release_node p)

-- The buckets up to `n`. Their order is no matter to the pools.
unfoldable pub release_buckets : ℕ → (ℕ → Bucket) → Pools → Pools
release_buckets zero buckets p = p
release_buckets (suc n) buckets p = release_buckets n buckets (release_chain (buckets n).chain p)

-- The chains go to the pool of the thread; what is in the pool of the table is deleted.
unfoldable pub destroy_hash_table : Table → Pools
destroy_hash_table t = record (release_buckets t.bucket_count t.buckets t.pools) { node_pool = 0 }

release_chain-balance :
    (c : List ℕ) (p : Pools)
    → ((release_chain c p).thread_local_pool ≡ p.thread_local_pool + length c)
      × ((release_chain c p).made ≡ p.made)
unfolding release_chain release_node
release_chain-balance [] p = (omega arith, refl)
release_chain-balance (w ∷ ws) p =
    let (a, b) = release_chain-balance ws (release_node p) in (omega (arith, a), b)

release_buckets-balance :
    (n : ℕ) (buckets : ℕ → Bucket) (p : Pools)
    → ((release_buckets n buckets p).thread_local_pool
        ≡ p.thread_local_pool + total chain_length n buckets)
      × ((release_buckets n buckets p).made ≡ p.made)
unfolding release_buckets total
release_buckets-balance zero buckets p = (omega arith, refl)
release_buckets-balance (suc n) buckets p =
    let (a, b) = release_chain-balance (buckets n).chain p in
    let (c, d) = release_buckets-balance n buckets (release_chain (buckets n).chain p) in
    (omega (arith, a, c), omega (arith, b, d))

-- Only the nodes in the pool of the table are deleted: all others, those of the chains too, stay in
-- the pool of the thread.
pub destroy_hash_table-keeps :
    (t : Table)
    → Balanced 0 t
    → (destroy_hash_table t).thread_local_pool + t.pools.node_pool ≡ t.pools.made
unfolding destroy_hash_table Balanced nodes_in
destroy_hash_table-keeps t balance =
    let (a, b) = release_buckets-balance t.bucket_count t.buckets t.pools in
    omega (arith, a, balance)
