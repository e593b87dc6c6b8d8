-- ===== src/OpenTable/Examples.antt =====
-- A table of seven slots: an insertion, a key that is inserted twice, and a tombstone.
use mtech.Prelude.{◌≡◌, refl, ◌==◌, if◌then◌else◌, arith}
use mtech.Prelude.Bits.{bitwise}
use mtech.OpenTable.State.{
  Table, murmur_hash, secondary_hash, pack_key_value, key_of, value_of, init_hash_table,
}
use mtech.OpenTable.Operations.{
  is_free, free_slot, fill, insert_pair, occupied_slot, delete_entry, key_slot, lookup,
}
use mtech.OpenTable.Finds.{IsClean, insert_pair-lookup}

abbrev seven : Table
seven = init_hash_table 7

seven-IsClean : IsClean seven
unfolding init_hash_table
seven-IsClean i e = refl

insert_pair-lookup_example :
    lookup (insert_pair 5 50 seven).1 5 ≡ (if 5 == 5 then 50 else lookup seven 5)
unfolding init_hash_table murmur_hash secondary_hash bitwise key_slot key_of free_slot is_free
    insert_pair fill pack_key_value
insert_pair-lookup_example =
    insert_pair-lookup seven 5 50 5 seven-IsClean (omega arith) (omega arith) (omega arith)
      (omega arith) refl refl

abbrev twice : Table
twice = (insert_pair 5 51 (insert_pair 5 50 seven).1).1

-- The second pair of a key comes to light when the first one is deleted.
twice_finds : lookup (delete_entry 5 twice).1 5 ≡ 51
unfolding init_hash_table murmur_hash secondary_hash bitwise key_slot key_of free_slot is_free
    insert_pair fill pack_key_value delete_entry occupied_slot lookup value_of
twice_finds = refl
