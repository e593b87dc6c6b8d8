-- ===== src/HashTable/Resize.antt =====
-- `check_and_resize` of cs636/assignment2/problem1/241110079.h, over nodes at addresses.
pub mod Loss
use mtech.Prelude.{
  ℕ, zero, suc, ◌+◌, ◌-◌, ◌*◌, ◌%◌, ◌≤◌, ◌<◌, ◌≡◌, ◌≢◌, refl, sym, ap, ◌∙◌, ◌==◌, ltb,
  if◌then◌else◌, ◌&&◌, ◌||◌, Option, some, none, ◌>>=◌, arith,
}
use mtech.Prelude.Family.{update}
use mtech.HashTable.State.{word32, bucket_threshold, global_threshold, key_of}

-- `Node`
pub record Node : Type 0 where
  pub packed_kv : ℕ
  pub next : ℕ

-- `Bucket`, by the address of its first node.
pub record Slot : Type 0 where
  pub head : ℕ
  pub count : ℕ

abbrev pub null : ℕ
null = 0

-- The nodes, and the new buckets.
pub record Moving : Type 0 where
  pub nodes : ℕ → Node
  pub new_buckets : ℕ → Slot

-- `HashTable`, as `check_and_resize` uses it.
pub record Linked : Type 0 where
  pub nodes : ℕ → Node
  pub buckets : ℕ → Slot
  pub bucket_count : ℕ
  pub overloaded_buckets : ℕ

module _ (primary_hash secondary_hash : ℕ → ℕ → ℕ) where
  unfoldable pub new_index : ℕ → ℕ → ℕ → ℕ
  new_index new_size key attempts =
      (primary_hash key new_size + attempts * secondary_hash key new_size) % word32 % new_size

  -- The node is put at the head of a new bucket.
  unfoldable pub put_node : ℕ → ℕ → Moving → Moving
  put_node current index m = record {
    nodes = update m.nodes current (record (m.nodes current) { next = (m.new_buckets index).head });
    new_buckets =
        update m.new_buckets index
          (record { head = current; count = (m.new_buckets index).count + 1 });
  }

  -- The attempts that are left to place a node.
  unfoldable pub place : ℕ → ℕ → ℕ → Moving → Moving
  place zero new_size current m = m
  place (suc left) new_size current m =
      let index = new_index new_size (key_of (m.nodes current).packed_kv) (new_size - suc left) in
      let later = place left new_size current m in
      if ltb (m.new_buckets index).count bucket_threshold then put_node current index m else later

  -- The walk along an old chain, with a bound on its turns. It goes on from the `next` of the node
  -- after the node has been placed.
  unfoldable pub move_chain : ℕ → ℕ → ℕ → Moving → Option Moving
  move_chain zero new_size current m = none
  move_chain (suc turns) new_size current m =
      let moved = place new_size new_size current m in
      let later = move_chain turns new_size (moved.nodes current).next moved in
      if current == null then some m else later

  -- The old buckets from the last `left` on.
  unfoldable pub move_buckets : ℕ → ℕ → ℕ → Linked → Moving → Option Moving
  move_buckets turns zero new_size t m = some m
  move_buckets turns (suc left) new_size t m = do
    moved ← move_chain turns new_size (t.buckets (t.bucket_count - suc left)).head m
    move_buckets turns left new_size t moved

  unfoldable pub check_and_resize : ℕ → Linked → Option Linked
  check_and_resize turns t =
      let new_size = t.bucket_count * 2 % word32 in
      let empty : Moving = record {
        nodes = t.nodes;
        new_buckets = λ i. record { head = null; count = 0 };
      } in
      let resized : Option Linked = (do
        moved ← move_buckets turns t.bucket_count new_size t empty
        some (record {
          nodes = moved.nodes;
          buckets = moved.new_buckets;
          bucket_count = new_size;
          overloaded_buckets = 0;
        })) in
      if ltb t.bucket_count (4 * t.overloaded_buckets)
        || (ltb 0 t.overloaded_buckets && ltb 0 global_threshold)
      then resized
      else some t
