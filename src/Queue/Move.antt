-- ===== src/Queue/Move.antt =====
-- One access to shared memory of `enq` and of `deq`, of cs636/assignment2/problem2/241110079.h.
use mtech.Prelude.{ℕ, Bool, Option, ◌>>=◌, none, some, false, not, ◌&&◌, ◌==◌, if◌then◌else◌}
use mtech.Prelude.Family.{update}
use mtech.Queue.Word.{extract_ptr, pack_ptr, next_tag}
use mtech.Queue.State.{Life, is_live, Node, Queue, new_node, Pc, Event}

-- The queue, the thread and the event after a step.
abbrev pub Moved : Type 0
Moved = Queue × Pc × Event

-- A read of a node, which must be in use.
unfoldable pub read : Queue → ℕ → Option Node
read q p = let node = q.nodes p in if is_live node.life then some node else none

-- `compare_exchange` of a word: whether it stored. A weak one may fail for no reason.
unfoldable pub exchanges : Bool → ℕ → ℕ → Bool
exchanges fails word expected = (word == expected) && not fails

-- `p->next = word`
unfoldable pub set_next : ℕ → ℕ → Queue → Queue
set_next p word q = record q { nodes = update q.nodes p (record (q.nodes p) { next = word }) }

-- `delete p`
unfoldable pub delete : ℕ → Queue → Queue
delete p q = record q { nodes = update q.nodes p (record (q.nodes p) { life = Life.freed }) }

-- `new Node(value)` at the address `a`
unfoldable pub allocate : ℕ → ℕ → Queue → Queue
allocate a value q = record q { nodes = update q.nodes a (new_node value) }

-- The test of `next_packed` at the top of the loop of `enq`.
unfoldable pub enq_test : Queue → ℕ → ℕ → ℕ → ℕ → Moved
enq_test q v n t next =
    (q, (if next == 0 then Pc.enq_link v n t else Pc.enq_help v n t next), Event.silent)

-- Help to advance the tail, and the next turn of the loop.
unfoldable pub help : Bool → Queue → ℕ → ℕ → ℕ → ℕ → Moved
help fails q v n t next = (
  (if exchanges fails q.tail t
      then record q { tail = pack_ptr (extract_ptr next) (next_tag t) }
      else q),
  Pc.enq_loop v n,
  Event.silent,
)

-- The node is linked behind the last one, or another turn of the loop.
unfoldable pub link : Bool → Queue → Node → ℕ → ℕ → ℕ → Moved
link fails q node v n t =
    if exchanges fails node.next 0
    then (set_next (extract_ptr t) (pack_ptr n 0) q, Pc.enq_swing v n t, Event.added v)
    else (q, Pc.enq_loop v n, Event.silent)

-- The strong exchange of the tail, which may find that another thread was there first.
unfoldable pub swing : Queue → ℕ → ℕ → ℕ → Moved
swing q v n t = (
  (if exchanges false q.tail t then record q { tail = pack_ptr n (next_tag t) } else q),
  Pc.enq_returned v,
  Event.silent,
)

-- The test for an empty queue in `deq`.
unfoldable pub deq_test : Queue → ℕ → ℕ → Moved
deq_test q h next =
    if next == 0
    then (q, Pc.deq_returned none, Event.seen_empty)
    else (q, Pc.deq_next h next, Event.silent)

-- The exchange of the head.
unfoldable pub advance : Queue → ℕ → ℕ → ℕ → Moved
advance q h next v =
    if exchanges false q.head h
    then (
      record q { head = pack_ptr (extract_ptr next) (next_tag h) },
      Pc.deq_delete (extract_ptr h) v,
      Event.removed v,
    )
    else (q, Pc.deq_loop, Event.silent)

-- A step of a thread, given whether a weak exchange fails and what address `new` gives. `none` is an
-- access to memory that is not in use, or a thread that is outside of the queue.
unfoldable pub move : Bool → ℕ → Queue → Pc → Option Moved
move fails a q Pc.idle = none
move fails a q (Pc.enq_new v) = some (allocate a v q, Pc.enq_loop v a, Event.silent)
move fails a q (Pc.enq_loop v n) = some (q, Pc.enq_loaded v n q.tail, Event.silent)
move fails a q (Pc.enq_loaded v n t) = do
  node ← read q (extract_ptr t)
  some (enq_test q v n t node.next)
move fails a q (Pc.enq_help v n t next) = some (help fails q v n t next)
move fails a q (Pc.enq_link v n t) = do
  node ← read q (extract_ptr t)
  some (link fails q node v n t)
move fails a q (Pc.enq_swing v n t) = some (swing q v n t)
move fails a q (Pc.enq_returned v) = none
move fails a q Pc.deq_loop = some (q, Pc.deq_loaded q.head, Event.silent)
move fails a q (Pc.deq_loaded h) = do node ← read q (extract_ptr h); some (deq_test q h node.next)
move fails a q (Pc.deq_next h next) = do
  node ← read q (extract_ptr next)
  some (q, Pc.deq_value h next node.value, Event.silent)
move fails a q (Pc.deq_value h next v) = some (advance q h next v)
move fails a q (Pc.deq_delete n v) = do
  node ← read q n
  some (delete n q, Pc.deq_returned (some v), Event.silent)
move fails a q (Pc.deq_returned answer) = none
