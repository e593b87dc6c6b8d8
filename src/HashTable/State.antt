-- ===== src/HashTable/State.antt =====
-- The table of cs636/assignment2/problem1/241110079.h, its hash functions and its nodes.
use mtech.Prelude.{ℕ, ◌+◌, ◌-◌, ◌*◌, ◌/◌, ◌%◌, ◌^◌, ◌==◌, if◌then◌else◌, List, []}

abbrev pub word32 : ℕ
word32 = 2 ^ 32

abbrev pub initial_bucket_count : ℕ
initial_bucket_count = 1000

abbrev pub bucket_threshold : ℕ
bucket_threshold = 100

abbrev pub global_threshold : ℕ
global_threshold = 20

-- What an absent key is looked up as: `-1`, as a `uint32_t`.
abbrev pub no_value : ℕ
no_value = word32 - 1

pub record KeyValue : Type 0 where
  pub key : ℕ
  pub value : ℕ

-- The two halves have no bit in common, so that their `|` is their sum.
unfoldable pub pack_key_value : ℕ → ℕ → ℕ
pack_key_value key value = key * word32 + value % word32

unfoldable pub key_of : ℕ → ℕ
key_of packed = packed / word32 % word32

unfoldable pub value_of : ℕ → ℕ
value_of packed = packed % word32

-- A bucket: the packed pairs of its nodes, the head first.
pub record Bucket : Type 0 where
  pub chain : List ℕ
  pub count : ℕ

-- The nodes in the pool of the thread, in that of the table, and those that `new` made.
pub record Pools : Type 0 where
  pub thread_local_pool : ℕ
  pub node_pool : ℕ
  pub made : ℕ

pub record Table : Type 0 where
  pub buckets : ℕ → Bucket
  pub bucket_count : ℕ
  pub primary_hash : ℕ → ℕ → ℕ
  pub secondary_hash : ℕ → ℕ → ℕ
  pub overloaded_buckets : ℕ
  pub pools : Pools

-- The arithmetic of `double`, with the constant 0.6180339887.
pub record Doubles (D : Type 0) : Type 0 where
  pub of_u32 : ℕ → D
  pub mul : D → D → D
  pub sub : D → D → D
  pub floor : D → D
  pub to_u32 : D → ℕ
  pub golden : D

unfoldable pub multiplicative : {D : Type 0} → Doubles D → ℕ → ℕ → ℕ
multiplicative f key bucket_count =
    let product = f.mul (f.of_u32 key) f.golden in
    f.to_u32 (f.mul (f.of_u32 bucket_count) (f.sub product (f.floor product)))

unfoldable pub second : ℕ → ℕ → ℕ
second key bucket_count = 1 + key % (bucket_count - 1)

abbrev pub empty_bucket : Bucket
empty_bucket = record { chain = []; count = 0 }

-- `init_hash_table`. The pool of the thread is as it was.
unfoldable pub init_hash_table : {D : Type 0} → Doubles D → Pools → Table
init_hash_table f pools = record {
  buckets = λ i. empty_bucket;
  bucket_count = initial_bucket_count;
  primary_hash = multiplicative f;
  secondary_hash = second;
  overloaded_buckets = 0;
  pools = record pools { node_pool = 0 };
}

-- `acquire_node`: from the pool of the thread, or all of the other pool, or a new one.
unfoldable pub acquire_node : Pools → Pools
acquire_node p =
    if p.thread_local_pool == 0
    then (if p.node_pool == 0
        then record p { made = p.made + 1 }
        else record p { thread_local_pool = p.node_pool - 1; node_pool = 0 })
    else record p { thread_local_pool = p.thread_local_pool - 1 }

unfoldable pub release_node : Pools → Pools
release_node p = record p { thread_local_pool = p.thread_local_pool + 1 }
