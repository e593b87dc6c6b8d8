-- ===== src/HashTable/Examples.antt =====
-- A small table with its batches, and a chain of two nodes that is moved.
use mtech.Prelude.{ℕ, ◌*◌, ◌%◌, ◌<◌, ◌≡◌, refl, Bool, List, [], ◌∷◌, some, none, arith}
use native.Mathlib.Nat.{mod-lt}
use mtech.Prelude.Family.{update, total}
use mtech.HashTable.State.{
  word32, KeyValue, Pools, Table, Doubles, multiplicative, second, init_hash_table, pack_key_value,
  key_of, acquire_node, release_node,
}
use mtech.HashTable.Operations.{
  batch_insert, insert_all, insert, acquire_all, release_rest, push_front, find_bucket, probe,
  has_key, is_resize_due,
}
use mtech.HashTable.Batches.{
  Call, inserts, deletes, lookups, run, answers_of, AreWords, HaveWords, total_inserted, inserted,
  IsFraction, run-answers_of,
}
use mtech.HashTable.Nodes.{Balanced, nodes_in, batch_insert-Balanced}
use mtech.HashTable.Resize.{Node, Slot, Moving, move_chain}
use mtech.HashTable.Resize.Loss.{move_chain-loses, moved}

-- Doubles as numbers, with a product that is the remainder by the first factor.
abbrev numbers : Doubles ℕ
numbers = record {
  of_u32 = λ n. n;
  mul = λ a b. b % a;
  sub = λ a b. a;
  floor = λ a. 0;
  to_u32 = λ a. a;
  golden = 5;
}

numbers-IsFraction : IsFraction numbers
unfolding multiplicative
numbers-IsFraction key n positive = mod-lt _ positive

abbrev no_nodes : Pools
no_nodes = record { thread_local_pool = 0; node_pool = 0; made = 0 }

abbrev pair : ℕ → ℕ → KeyValue
pair key value = record { key = key; value = value }

abbrev two_pairs : List KeyValue
two_pairs = pair 3 30 ∷ pair 3 31 ∷ []

abbrev calls : List Call
calls = inserts two_pairs ∷ lookups (3 ∷ 4 ∷ []) ∷ deletes (3 ∷ []) ∷ lookups (3 ∷ []) ∷ []

run-answers_of_example :
    run calls (init_hash_table numbers no_nodes) ≡ some (answers_of calls (λ key. none))
unfolding HaveWords AreWords total_inserted inserted
run-answers_of_example =
    run-answers_of numbers no_nodes numbers-IsFraction calls
      ((omega arith, omega arith, (omega arith, omega arith, tt)), tt) (omega arith)

abbrev fresh : Table
fresh = init_hash_table numbers no_nodes

abbrev after_inserts : List Bool × Table
after_inserts = elim (batch_insert two_pairs fresh) [ none ↦ ([], fresh) | some end ↦ end ]

batch_insert-Balanced_example : Balanced 0 after_inserts.1
unfolding init_hash_table batch_insert insert_all insert acquire_all acquire_node release_rest
    release_node push_front find_bucket probe has_key is_resize_due pack_key_value multiplicative
    Balanced nodes_in total second key_of
batch_insert-Balanced_example =
    batch_insert-Balanced fresh (omega arith) refl two_pairs after_inserts.0 after_inserts.1 refl

-- The hash of a key is its remainder. Keys 1 and 5, at the addresses 1 and 2, have one home of four.
abbrev remainder : ℕ → ℕ → ℕ
remainder key n = key % n

remainder-lt : (key : ℕ) → remainder key 4 < 4
remainder-lt key = omega arith

abbrev two_nodes : ℕ → Node
two_nodes =
    update
      (update (λ a. record { packed_kv = 0; next = 0 }) 2
        (record { packed_kv = 5 * word32; next = 0 }))
      1 (record { packed_kv = 1 * word32; next = 2 })

abbrev no_slot : Slot
no_slot = record { head = 0; count = 0 }

abbrev before : Moving
before = record { nodes = two_nodes; new_buckets = λ i. no_slot }

abbrev with_second : Moving
with_second = record {
  nodes = two_nodes;
  new_buckets = update (λ i. no_slot) 1 (record { head = 2; count = 1 });
}

move_chain-loses_example :
    move_chain remainder remainder 2 4 1 before ≡ some (moved remainder remainder 4 1 before)
unfolding key_of
move_chain-loses_example =
    move_chain-loses remainder remainder 4 remainder-lt (omega arith) 0 1 before (omega arith) refl
