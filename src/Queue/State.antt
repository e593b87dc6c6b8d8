-- ===== src/Queue/State.antt =====
-- The nodes, the queue and the threads of cs636/assignment2/problem2/241110079.h.
use mtech.Prelude.{ℕ, ◌-◌, ◌^◌, Bool, true, false, Option}
use mtech.Prelude.Family.{update}
use mtech.Queue.Word.{pack_ptr}

-- Memory at an address: never allocated, in use, or given back.
pub data Life : Type 0 where
  unused live freed : Life

abbrev pub is_live : Life → Bool
is_live Life.live = true
is_live _ = false

-- `Node`, with the state of its memory
pub record Node : Type 0 where
  pub life : Life
  pub value : ℕ
  pub next : ℕ

-- `ConcurrentQueue`, and the memory that it points to
pub record Queue : Type 0 where
  pub head : ℕ
  pub tail : ℕ
  pub nodes : ℕ → Node

-- `new Node(value)`
abbrev pub new_node : ℕ → Node
new_node value = record { life = Life.live; value = value; next = 0 }

-- `-1`, as the `int` of a dummy
abbrev pub dummy_value : ℕ
dummy_value = 2 ^ 32 - 1

-- An address where no node has been made.
abbrev pub no_node : Node
no_node = record { life = Life.unused; value = 0; next = 0 }

-- The constructor, with the address that `new` gave.
unfoldable pub construct : ℕ → Queue
construct dummy = record {
  head = pack_ptr dummy 0;
  tail = pack_ptr dummy 0;
  nodes = update (λ a. no_node) dummy (new_node dummy_value);
}

-- Where a thread stands: the local variables that it still reads. The first are of `enq`.
pub data Pc : Type 0 where
  idle : Pc
  enq_new : ℕ → Pc
  enq_loop : ℕ → ℕ → Pc
  enq_loaded : ℕ → ℕ → ℕ → Pc
  enq_help : ℕ → ℕ → ℕ → ℕ → Pc
  enq_link : ℕ → ℕ → ℕ → Pc
  enq_swing : ℕ → ℕ → ℕ → Pc
  enq_returned : ℕ → Pc
  deq_loop : Pc
  deq_loaded : ℕ → Pc
  deq_next : ℕ → ℕ → Pc
  deq_value : ℕ → ℕ → ℕ → Pc
  deq_delete : ℕ → ℕ → Pc
  deq_returned : Option ℕ → Pc

-- What a step is to the outside: a value is in the queue or out of it, or it was seen empty.
pub data Event : Type 0 where
  silent : Event
  added : ℕ → Event
  removed : ℕ → Event
  seen_empty : Event
