-- ===== src/Queue/System.antt =====
-- Threads that call `enq` and `deq` of one queue, in any order of their accesses, and a queue that
-- an observer sees.
use mtech.Prelude.{
  ℕ, ◌<◌, ◌≡◌, ◌≢◌, Bool, true, false, Option, ◌>>=◌, none, some, List, [], ◌∷◌, ◌++◌, ◌==◌,
  if◌then◌else◌,
}
use mtech.Prelude.Family.{update}
use mtech.Queue.Word.{pointers}
use mtech.Queue.State.{Life, Node, Queue, construct, Pc, Event}
use mtech.Queue.Move.{move}

pub record System : Type 0 where
  pub queue : Queue
  pub pc : ℕ → Pc

-- An address that the allocator can give: of 48 bits, and not in use. It may be one that was given
-- back.
pub record IsGivable (a : ℕ) (nodes : ℕ → Node) : Type 0 where
  pub not_null : 0 < a
  pub small : a < pointers
  pub not_live : (nodes a).life ≢ Life.live

-- One that was never given before.
pub record IsFresh (a : ℕ) (nodes : ℕ → Node) : Type 0 where
  pub not_null : 0 < a
  pub small : a < pointers
  pub unused : (nodes a).life ≡ Life.unused

-- Whether the next step of a thread is `new`.
unfoldable pub allocates : Pc → Bool
allocates (Pc.enq_new v) = true
allocates _ = false

-- A thread calls, moves, or is back outside. `move` is defined when the memory that it accesses is
-- in use.
pub data Step (s : System) : Event → System → Type 0 where
  call_enq :
      (i v : ℕ)
      → s.pc i ≡ Pc.idle
      → Step s Event.silent (record s { pc = update s.pc i (Pc.enq_new v) })
  call_deq :
      (i : ℕ) → s.pc i ≡ Pc.idle → Step s Event.silent (record s { pc = update s.pc i Pc.deq_loop })
  moves :
      (i : ℕ) (fails : Bool) (a : ℕ) {q : Queue} {p : Pc} {event : Event}
      → (allocates (s.pc i) ≡ true → IsGivable a s.queue.nodes)
      → move fails a s.queue (s.pc i) ≡ some (q, p, event)
      → Step s event (record { queue = q; pc = update s.pc i p })
  enq_back :
      (i v : ℕ)
      → s.pc i ≡ Pc.enq_returned v
      → Step s Event.silent (record s { pc = update s.pc i Pc.idle })
  deq_back :
      (i : ℕ) (answer : Option ℕ)
      → s.pc i ≡ Pc.deq_returned answer
      → Step s Event.silent (record s { pc = update s.pc i Pc.idle })

-- After the constructor, with all threads outside.
abbrev pub init : ℕ → System
init dummy = record { queue = construct dummy; pc = λ i. Pc.idle }

-- The states of a run, and its events, the latest first.
pub data Reach (dummy : ℕ) : List Event → System → Type 0 where
  start : Reach dummy [] (init dummy)
  later :
      {events : List Event} {s t : System} {event : Event}
      → Reach dummy events s
      → Step s event t
      → Reach dummy (event ∷ events) t

-- If the step is `new`, it gives an address that no node has had.
unfoldable pub IsNew : {s t : System} {event : Event} → Step s event t → Type 0
IsNew (call_enq i v e) = Unit {0}
IsNew (call_deq i e) = Unit {0}
IsNew {s} (moves i fails a given e) =
    allocates (s.pc i) ≡ true → (s.queue.nodes a).life ≡ Life.unused
IsNew (enq_back i v e) = Unit {0}
IsNew (deq_back i answer e) = Unit {0}

-- A run in which `new` gives no address again that was given back.
unfoldable pub NeverReuses :
    {dummy : ℕ} {events : List Event} {s : System} → Reach dummy events s → Type 0
unfolding IsNew
NeverReuses start = Unit {0}
NeverReuses (later run step) = NeverReuses run × IsNew step

-- A queue as a list, oldest first, and what it answers to an event.
unfoldable pub observe : Event → List ℕ → Option (List ℕ)
observe Event.silent xs = some xs
observe (Event.added v) xs = some (xs ++ v ∷ [])
observe (Event.removed v) [] = none
observe (Event.removed v) (x ∷ xs) = if v == x then some xs else none
observe Event.seen_empty [] = some []
observe Event.seen_empty (x ∷ xs) = none

unfoldable pub replay : List Event → Option (List ℕ)
replay [] = some []
replay (event ∷ events) = do xs ← replay events; observe event xs
