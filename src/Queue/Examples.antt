-- ===== src/Queue/Examples.antt =====
-- A run of two threads over the queue, at an enqueue whose tail is not moved.
use mtech.Prelude.{
  ℕ, ◌%◌, ◌^◌, ◌≡◌, refl, none, some, true, false, List, [], ◌∷◌, length, arith, ◌<◌, ◌≢◌, ◌++◌,
  suc,
}
use mtech.Prelude.Family.{update}
use mtech.Queue.Word.{extract_ptr, extract_tag, pack_ptr, next_tag}
use mtech.Queue.State.{Life, Queue, construct, Pc, Event}
use mtech.Queue.Move.{
  move, read, enq_test, link, swing, deq_test, advance, exchanges, allocate, set_next, delete,
}
use mtech.Queue.System.{
  System, call_enq, call_deq, moves, enq_back, Reach, start, later, IsGivable, IsNew, NeverReuses,
  allocates, replay, observe,
}
use mtech.Queue.Walk.{
  number, to_string_loop, to_string, destroy, spaced, reach-to_string, reach-destroy,
}
use mtech.Queue.Solo.{alone}
use mtech.Queue.Tags.{removals}
use mtech.Queue.Solo.Returns.{enq-alone}

abbrev Run : Type 0
Run = (es : List Event) × (s : System) × Reach 1 es s

never :
    (r : Run) (i : ℕ)
    → allocates (r.1.pc i) ≡ false
    → allocates (r.1.pc i) ≡ true
    → IsGivable 0 r.1.queue.nodes
never r i quiet h = cc

-- A thread that does not allocate moves.
abbrev on :
    (r : Run) (i : ℕ) {q : Queue} {p : Pc} {event : Event}
    → allocates (r.1.pc i) ≡ false
    → move false 0 r.1.queue (r.1.pc i) ≡ some (q, p, event)
    → Run
on r i {q} {p} {event} quiet e = (
  event ∷ r.0,
  record { queue = q; pc = update r.1.pc i p },
  later r.2 (moves i false 0 (never r i quiet) e),
)

unused-live : Life.unused ≢ Life.live
unused-live h = cc

freed-live : Life.freed ≢ Life.live
freed-live h = cc

abbrev call : (r : Run) (i v : ℕ) → r.1.pc i ≡ Pc.idle → Run
call r i v e = (
  Event.silent ∷ r.0,
  record r.1 { pc = update r.1.pc i (Pc.enq_new v) },
  later r.2 (call_enq i v e),
)

abbrev take_one : (r : Run) (i : ℕ) → r.1.pc i ≡ Pc.idle → Run
take_one r i e =
    (Event.silent ∷ r.0, record r.1 { pc = update r.1.pc i Pc.deq_loop }, later r.2 (call_deq i e))

-- `new` gives the address `a`.
abbrev make : (r : Run) (i v a : ℕ) → r.1.pc i ≡ Pc.enq_new v → IsGivable a r.1.queue.nodes → Run
unfolding move
make r i v a e fresh = (
  Event.silent ∷ r.0,
  record { queue = allocate a v r.1.queue; pc = update r.1.pc i (Pc.enq_loop v a) },
  later r.2 (moves i false a (λ h. fresh) (rw e refl)),
)

-- Thread 0 has linked the value 7 at the address 2, and has not moved the tail.
abbrev stalled : Run
unfolding construct move read enq_test link swing deq_test advance exchanges allocate set_next
    delete extract_ptr extract_tag next_tag pack_ptr allocates to_string to_string_loop
stalled =
    let r0 : Run = ([], _, start) in
    let r1 = call r0 0 7 refl in
    let r2 =
      make r1 0 7 2 refl
        (record { not_null = omega arith; small = omega arith; not_live = unused-live }) in
    let r3 = on r2 0 refl refl in let r4 = on r3 0 refl refl in on r4 0 refl refl

-- Both threads have called: the value is taken, and all are outside.
abbrev settled : Run
unfolding construct move read enq_test link swing deq_test advance exchanges allocate set_next
    delete extract_ptr extract_tag next_tag pack_ptr allocates to_string to_string_loop
settled =
    let r1 = on stalled 0 refl refl in let r2 : Run = (_, _, later r1.2 (enq_back 0 7 refl)) in r2

-- Thread 1 has moved the head to the value, and not deleted the dummy.
abbrev taken : Run
unfolding construct move read enq_test link swing deq_test advance exchanges allocate set_next
    delete extract_ptr extract_tag next_tag pack_ptr allocates to_string to_string_loop
taken =
    let r1 = take_one stalled 1 refl in
    let r2 = on r1 1 refl refl in
    let r3 = on r2 1 refl refl in let r4 = on r3 1 refl refl in on r4 1 refl refl

stalled-NeverReuses : NeverReuses stalled.2
unfolding construct move read enq_test link swing deq_test advance exchanges allocate set_next
    delete extract_ptr extract_tag next_tag pack_ptr allocates to_string to_string_loop NeverReuses
    IsNew
stalled-NeverReuses = (((((tt, tt), λ h. refl), λ h. cc), λ h. cc), λ h. cc)

settled-NeverReuses : NeverReuses settled.2
unfolding construct move read enq_test link swing deq_test advance exchanges allocate set_next
    delete extract_ptr extract_tag next_tag pack_ptr allocates to_string to_string_loop NeverReuses
    IsNew
settled-NeverReuses = (((((((tt, tt), λ h. refl), λ h. cc), λ h. cc), λ h. cc), λ h. cc), tt)

reach-to_string_example :
    (xs : List ℕ) × (replay stalled.0 ≡ some xs)
    × ((turns : ℕ) → length xs < turns → to_string turns stalled.1.queue ≡ some (spaced xs))
    × (extract_tag stalled.1.queue.head ≡ removals stalled.0 % 2 ^ 16)
reach-to_string_example =
    reach-to_string 1 (omega arith) (omega arith) stalled.0 stalled.1 stalled.2 stalled-NeverReuses

stalled_prints : to_string 2 stalled.1.queue ≡ some (number 7 ∷ [])
unfolding construct move read enq_test link swing deq_test advance exchanges allocate set_next
    delete extract_ptr extract_tag next_tag pack_ptr allocates to_string to_string_loop
stalled_prints = refl

all_outside : (i : ℕ) → settled.1.pc i ≡ Pc.idle
unfolding settled
all_outside i = ground arith

reach-destroy_example :
    (xs : List ℕ) × (replay settled.0 ≡ some xs)
    × ((turns : ℕ)
        → suc (length xs) < turns
        → (q : Queue) × (destroy turns settled.1.queue ≡ some q)
          × ((a : ℕ) → (q.nodes a).life ≢ Life.live))
reach-destroy_example =
    reach-destroy 1 (omega arith) (omega arith) settled.0 settled.1 settled.2 settled-NeverReuses
      all_outside

enq-alone_example :
    (xs : List ℕ) × (q : Queue) × (es : List Event) × (replay stalled.0 ≡ some xs)
    × (alone 8 3 stalled.0 stalled.1.queue (Pc.enq_new 9) ≡ some (q, Pc.enq_returned 9, es))
    × (replay es ≡ some (xs ++ 9 ∷ []))
    × (extract_tag q.head ≡ removals es % 2 ^ 16)
unfolding construct move read enq_test link swing deq_test advance exchanges allocate set_next
    delete extract_ptr extract_tag next_tag pack_ptr allocates to_string to_string_loop
enq-alone_example =
    enq-alone 1 (omega arith) (omega arith) stalled.0 stalled.1 stalled.2 stalled-NeverReuses 9 3
      (record { not_null = omega arith; small = omega arith; unused = refl }) refl

-- After the delete, the tail still leads to the dummy: the next `enq` reads a freed node.
abbrev deleted : Run
unfolding construct move read enq_test link swing deq_test advance exchanges allocate set_next
    delete extract_ptr extract_tag next_tag pack_ptr allocates to_string to_string_loop
deleted = on taken 1 refl refl

stale_tail : (deleted.1.queue.nodes (extract_ptr deleted.1.queue.tail)).life ≡ Life.freed
unfolding construct move read enq_test link swing deq_test advance exchanges allocate set_next
    delete extract_ptr extract_tag next_tag pack_ptr allocates to_string to_string_loop
stale_tail = refl

freed_read : move false 0 deleted.1.queue (Pc.enq_loaded 9 3 deleted.1.queue.tail) ≡ none
unfolding construct move read enq_test link swing deq_test advance exchanges allocate set_next
    delete extract_ptr extract_tag next_tag pack_ptr allocates to_string to_string_loop
freed_read = refl

-- `new` gives the address of the deleted dummy again while thread 2 stands at it: thread 2 links the
-- value 5 behind a node that is not in the queue. An observer has seen the 5 go in, and it is not
-- there.
abbrev reused : Run
unfolding construct move read enq_test link swing deq_test advance exchanges allocate set_next
    delete extract_ptr extract_tag next_tag pack_ptr allocates to_string to_string_loop
reused =
    let r1 = call stalled 2 5 refl in
    let r2 =
      make r1 2 5 3 refl
        (record { not_null = omega arith; small = omega arith; not_live = unused-live }) in
    let r3 = on r2 2 refl refl in
    let r4 = on r3 0 refl refl in
    let r5 = take_one r4 1 refl in
    let r6 = on r5 1 refl refl in
    let r7 = on r6 1 refl refl in
    let r8 = on r7 1 refl refl in
    let r9 = on r8 1 refl refl in
    let r10 = on r9 1 refl refl in
    let r11 : Run = (_, _, later r10.2 (enq_back 0 7 refl)) in
    let r12 = call r11 0 8 refl in
    let r13 =
      make r12 0 8 1 refl
        (record { not_null = omega arith; small = omega arith; not_live = freed-live }) in
    let r14 = on r13 2 refl refl in on r14 2 refl refl

reused_differs : (replay reused.0 ≡ some (5 ∷ [])) × (to_string 2 reused.1.queue ≡ some [])
unfolding construct move read enq_test link swing deq_test advance exchanges allocate set_next
    delete extract_ptr extract_tag next_tag pack_ptr allocates to_string to_string_loop replay
    observe
reused_differs = (refl, refl)
