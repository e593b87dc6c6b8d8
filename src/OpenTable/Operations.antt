-- ===== src/OpenTable/Operations.antt =====
-- The operations of cs610/assignment5/problem1/hash_table.cpp. Each runs under the one lock.
use mtech.Prelude.{
  ℕ, zero, suc, ◌+◌, ◌-◌, ◌*◌, ◌%◌, ◌^◌, ◌==◌, if◌then◌else◌, Bool, true, false, not, ◌&&◌, ◌||◌,
  Option, none, some, ◌>>=◌,
}
use mtech.Prelude.Family.{update}
use mtech.OpenTable.State.{
  sentinel_value, tombstone_key, Table, murmur_hash, secondary_hash, pack_key_value, key_of,
  value_of,
}

-- A slot that takes a pair: empty or a tombstone.
unfoldable pub is_free : Table → ℕ → Bool
is_free t i = not (t.is_occupied i) || (t.table i == 0 || t.table i == tombstone_key)

-- The loop of `insert`, with the tries that are left: the slot that it fills.
unfoldable pub free_slot : ℕ → Table → ℕ → ℕ → Option ℕ
free_slot zero t index step = none
free_slot (suc left) t index step =
    let later = free_slot left t ((index + step) % t.capacity) step in
    if is_free t index then some index else later

unfoldable pub fill : ℕ → ℕ → Table → Table
fill index packed t = record t {
  table = update t.table index packed;
  is_occupied = update t.is_occupied index true;
  size = (t.size + 1) % 2 ^ 64;
}

-- `insert` behind its test of the load.
unfoldable pub insert_pair : ℕ → ℕ → Table → Bool × Table
insert_pair key value t =
    elim (free_slot t.capacity t (murmur_hash key t.capacity) (secondary_hash key t.capacity)) [
      | none ↦ (false, t)
      | some index ↦ (true, fill index (pack_key_value key value) t)
    ]

-- The search for a slot of the new table, with a bound on its tries.
unfoldable pub new_slot : ℕ → (ℕ → Bool) → ℕ → ℕ → ℕ → Option ℕ
new_slot zero occupied capacity index step = none
new_slot (suc tries) occupied capacity index step =
    let later = new_slot tries occupied capacity ((index + step) % capacity) step in
    if occupied index then later else some index

-- The loop of `resize` over the first entries.
unfoldable pub move_entries : ℕ → Table → ℕ → ℕ → Option ((ℕ → ℕ) × (ℕ → Bool))
move_entries tries t capacity zero = some ((λ i. 0), λ i. false)
move_entries tries t capacity (suc i) = do
  (table, occupied) ← move_entries tries t capacity i
  let key = key_of (t.table i) in
      let moved : Option ((ℕ → ℕ) × (ℕ → Bool)) = (do
        index ←
            new_slot tries occupied capacity (murmur_hash key capacity)
              (secondary_hash key capacity)
        some (
          update table index (pack_key_value key (value_of (t.table i))),
          update occupied index true,
        )) in
      if t.is_occupied i && (not (t.table i == 0) && not (t.table i == tombstone_key))
      then moved
      else some (table, occupied)

unfoldable pub resize : ℕ → Table → Option Table
resize tries t = do
  (table, occupied) ← move_entries tries t (t.capacity * 2) t.capacity
  some (record t {
    table = table;
    is_occupied = occupied;
    capacity = t.capacity * 2;
    is_resizing = false;
  })

-- `insert`, with the test of the load, which is on floats, as a parameter.
unfoldable pub insert : (ℕ → ℕ → Bool) → ℕ → ℕ → ℕ → Table → Option (Bool × Table)
insert is_loaded tries key value t =
    let resized =
      resize tries (record t { is_resizing = true }) >>= λ u. some (insert_pair key value u) in
    if is_loaded t.size t.capacity && not t.is_resizing
    then resized
    else some (insert_pair key value t)

-- The loop of `deleteEntry`: the slot with the key, before one that was never filled.
unfoldable pub occupied_slot : ℕ → Table → ℕ → ℕ → ℕ → Option ℕ
occupied_slot zero t key index step = none
occupied_slot (suc left) t key index step =
    let later = occupied_slot left t key ((index + step) % t.capacity) step in
    if not (t.is_occupied index)
    then none
    else if key_of (t.table index) == key
    then some index
    else later

unfoldable pub delete_entry : ℕ → Table → Bool × Table
delete_entry key t =
    elim (occupied_slot t.capacity t key (murmur_hash key t.capacity)
      (secondary_hash key t.capacity)) [
        | none ↦ (false, t)
        | some index ↦ (
          true,
          record t {
            table = update t.table index tombstone_key;
            is_occupied = update t.is_occupied index true;
            size = (t.size + (2 ^ 64 - 1)) % 2 ^ 64;
          },
        )
      ]

-- The loop of `lookup`: the first slot with the key.
unfoldable pub key_slot : ℕ → Table → ℕ → ℕ → ℕ → Option ℕ
key_slot zero t key index step = none
key_slot (suc left) t key index step =
    let later = key_slot left t key ((index + step) % t.capacity) step in
    if key_of (t.table index) == key then some index else later

unfoldable pub lookup : Table → ℕ → ℕ
lookup t key =
    elim (key_slot t.capacity t key (murmur_hash key t.capacity) (secondary_hash key t.capacity)) [
      | none ↦ sentinel_value
      | some index ↦ value_of (t.table index)
    ]
