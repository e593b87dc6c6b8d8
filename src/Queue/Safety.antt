-- ===== src/Queue/Safety.antt =====
-- `delete` in `deq` of cs636/assignment2/problem2/241110079.h.
use mtech.Prelude.{ℕ, ◌<◌, ◌≡◌, ◌≢◌, subst, ap, List, arith}
use mtech.Queue.Word.{extract_ptr, pointers}
use mtech.Queue.State.{Life, Pc, Event}
use mtech.Queue.System.{System, Reach, NeverReuses}
use mtech.Queue.Invariant.{Left, Knows, held}
use mtech.Queue.Linear.{reach-Inv}

-- In every state of a run in which no address is given again, a node that a thread is about to delete is in use, no other thread is
-- about to delete it, and the head does not lead to it.
pub reach-delete_once :
    (dummy : ℕ)
    → 0 < dummy
    → dummy < pointers
    → (events : List Event) (s : System) → (run : Reach dummy events s) → NeverReuses run
    → (i n v : ℕ) → s.pc i ≡ Pc.deq_delete n v
    → ((s.queue.nodes n).life ≡ Life.live)
      × ((j w : ℕ) → i ≢ j → s.pc j ≢ Pc.deq_delete n w)
      × (extract_ptr s.queue.head ≢ n)
unfolding Knows
reach-delete_once dummy positive small events s run never i n v at =
    let (o, inv, seen) = reach-Inv dummy events s positive small run never in
    let left : Left o s.queue n = subst (Knows o s.queue) at (inv.knows i) in
    (
      left.live,
      (λ j w ne at'. inv.apart i j n ne (ap held at) (ap held at')),
      λ e. ground (arith, inv.linked.distinct left.at o.first, left.here, left.below),
    )
