-- ===== src/OpenTable/State.antt =====
-- The table of cs610/assignment5/problem1/hash_table.h and the hash functions of hash_table.cpp.
use mtech.Prelude.{ℕ, ◌+◌, ◌-◌, ◌*◌, ◌/◌, ◌%◌, ◌^◌, Bool, false}
use mtech.Prelude.Bits.{bitwise, differ}

abbrev pub word32 : ℕ
word32 = 2 ^ 32

abbrev pub sentinel_value : ℕ
sentinel_value = 0

abbrev pub tombstone_key : ℕ
tombstone_key = word32 - 1

pub record Table : Type 0 where
  pub table : ℕ → ℕ
  pub is_occupied : ℕ → Bool
  pub size : ℕ
  pub capacity : ℕ
  pub is_resizing : Bool

unfoldable pub murmur_hash : ℕ → ℕ → ℕ
murmur_hash key table_size =
    let mixed = bitwise differ 32 305441741 key * 1540483477 % word32 in
    bitwise differ 32 mixed (mixed / 2 ^ 15) % table_size

unfoldable pub secondary_hash : ℕ → ℕ → ℕ
secondary_hash key table_size = 1 + key % (table_size - 1)

-- The two halves have no bit in common, so that their `|` is their sum.
unfoldable pub pack_key_value : ℕ → ℕ → ℕ
pack_key_value key value = key * word32 + value % word32

unfoldable pub key_of : ℕ → ℕ
key_of packed = packed / word32 % word32

unfoldable pub value_of : ℕ → ℕ
value_of packed = packed % word32

unfoldable pub init_hash_table : ℕ → Table
init_hash_table capacity = record {
  table = λ i. 0;
  is_occupied = λ i. false;
  size = 0;
  capacity = capacity;
  is_resizing = false;
}
