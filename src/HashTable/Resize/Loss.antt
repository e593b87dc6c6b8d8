-- ===== src/HashTable/Resize/Loss.antt =====
-- What the walk of `check_and_resize` of cs636/assignment2/problem1/241110079.h does to a chain.
use native.Mathlib.Nat.{mod-eq_of_lt, zero-mul}
use mtech.Prelude.{
  ℕ, zero, suc, ◌+◌, ◌-◌, ◌*◌, ◌%◌, ◌≤◌, ◌<◌, ◌≡◌, ◌≢◌, refl, ap, ◌∙◌, ◌==◌, false, some, arith,
}
use mtech.HashTable.State.{word32, bucket_threshold, key_of}
use mtech.HashTable.Resize.{Slot, null, Moving, new_index, put_node, place, move_chain}

module _ (primary_hash secondary_hash : ℕ → ℕ → ℕ) (new_size : ℕ) where
  abbrev pub target : Moving → ℕ → ℕ
  target m p = primary_hash (key_of (m.nodes p).packed_kv) new_size

  abbrev pub moved : ℕ → Moving → Moving
  moved p m = put_node primary_hash secondary_hash p (target m p) m

  -- Two nodes are moved, one after the other.
  abbrev pub knotted : ℕ → ℕ → Moving → Moving
  knotted p h m = moved h (moved p m)

  first_index :
      (key : ℕ)
      → primary_hash key new_size < new_size
      → new_size ≤ word32
      → new_index primary_hash secondary_hash new_size key 0 ≡ primary_hash key new_size
  unfolding new_index
  first_index key h narrow =
      let e : primary_hash key new_size + 0 * secondary_hash key new_size
          ≡ primary_hash key new_size =
        ap (λ k. primary_hash key new_size + k) (zero-mul (secondary_hash key new_size))
        ∙ omega arith in
      ap (λ k. k % word32 % new_size) e
      ∙ (ap (λ k. k % new_size)
            (mod-eq_of_lt {n = primary_hash key new_size} {m = word32} (omega arith))
          ∙ mod-eq_of_lt h)

  module _ (hashed : (key : ℕ) → primary_hash key new_size < new_size)
      (narrow : new_size ≤ word32) where
    -- A node goes into the bucket of its key when there is room.
    place-first :
        (n p : ℕ) (m : Moving)
        → n ≡ new_size
        → (m.new_buckets (target m p)).count < bucket_threshold
        → place primary_hash secondary_hash n new_size p m ≡ moved p m
    unfolding place
    place-first zero p m e room = absurd (omega (arith, hashed 0))
    place-first (suc left) p m e room =
        let start : new_size - suc left ≡ 0 = omega arith in
        let index = first_index (key_of (m.nodes p).packed_kv) (hashed _) narrow in
        rw (start, index) (ground arith)

    moved-next :
        (p : ℕ) (m : Moving) → ((moved p m).nodes p).next ≡ (m.new_buckets (target m p)).head
    unfolding put_node
    moved-next p m = ground arith

    turn :
        (turns p : ℕ) (m : Moving)
        → p ≢ null
        → (m.new_buckets (target m p)).count < bucket_threshold
        → move_chain primary_hash secondary_hash (suc turns) new_size p m
          ≡ move_chain primary_hash secondary_hash turns new_size
              (m.new_buckets (target m p)).head
              (moved p m)
    unfolding move_chain
    turn turns p m some_node room =
        let e = place-first new_size p m refl room in
        let test : (p == null) ≡ false = ground arith in
        let after = moved-next p m in rw (test, e, after) refl

    -- When the first node of an old chain goes to an empty new bucket, the walk ends there: the rest
    -- of the chain is in no bucket.
    pub move_chain-loses :
        (turns p : ℕ) (m : Moving)
        → p ≢ null
        → m.new_buckets (target m p) ≡ record { head = null; count = 0 }
        → move_chain primary_hash secondary_hash (suc (suc turns)) new_size p m ≡ some (moved p m)
    unfolding move_chain
    move_chain-loses turns p m some_node empty =
        let room : (m.new_buckets (target m p)).count < bucket_threshold = ground arith in
        turn (suc turns) p m some_node room
        ∙ (let nothing : (m.new_buckets (target m p)).head ≡ null = ap Slot.head empty in
            rw nothing refl)

    module _ (p h : ℕ) (m : Moving) (some_node : p ≢ null) (some_head : h ≢ null) (other : p ≢ h)
        (headed : (m.new_buckets (target m p)).head ≡ h) (same : target m h ≡ target m p)
        (room : suc (m.new_buckets (target m p)).count < bucket_threshold) where
      next_target : target (moved p m) h ≡ target m p
      unfolding put_node
      next_target = ground arith

      next_slot :
          (moved p m).new_buckets (target (moved p m) h)
          ≡ record { head = p; count = (m.new_buckets (target m p)).count + 1 }
      unfolding put_node
      next_slot = rw next_target (ground arith)

      -- When it goes to a bucket that has a node of the same home, the walk goes on in the new chain:
      -- two turns later it is at the first node again, the two nodes lead to each other, and the
      -- count of the bucket has gone up by two.
      pub move_chain-knots :
          (turns : ℕ)
          → (move_chain primary_hash secondary_hash (suc (suc turns)) new_size p m
              ≡ move_chain primary_hash secondary_hash turns new_size p (knotted p h m))
            × (((knotted p h m).nodes p).next ≡ h)
            × (((knotted p h m).nodes h).next ≡ p)
            × (((knotted p h m).new_buckets (target m p)).count
                ≡ (m.new_buckets (target m p)).count + 2)
      unfolding put_node
      move_chain-knots turns =
          let slot = next_slot in
          let there = next_target in
          let full : ((moved p m).new_buckets (target (moved p m) h)).count < bucket_threshold =
            rw slot (omega arith) in
          (
            turn (suc turns) p m some_node (omega arith)
                ∙ (ap
                      (λ k.
                        move_chain primary_hash secondary_hash (suc turns) new_size k (moved p m))
                      headed
                    ∙ (turn turns h (moved p m) some_head full
                        ∙ ap
                            (λ k.
                              move_chain primary_hash secondary_hash turns new_size k
                                (knotted p h m))
                            (ap Slot.head slot))),
            ground arith,
            ground (arith, ap Slot.head slot),
            ground (arith, ap Slot.count slot),
          )
