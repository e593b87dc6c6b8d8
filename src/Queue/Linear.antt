-- ===== src/Queue/Linear.antt =====
-- Every run of threads over the queue of cs636/assignment2/problem2/241110079.h is seen as a run of
-- a list, oldest value first.
use mtech.Prelude.{ℕ, ◌<◌, ◌≡◌, ◌∙◌, inl, refl, ap, sym, some, arith, ◌>>=◌, List}
use mtech.Queue.Word.{extract_ptr-pack_ptr, pointers}
use mtech.Queue.State.{construct, Pc, Event}
use mtech.Queue.System.{
  System, Step, call_enq, call_deq, moves, enq_back, deq_back, Reach, start, later, IsNew,
  NeverReuses, init, observe, replay,
}
use mtech.Queue.Invariant.{Order, Knows, held, Inv, contents, slice}
use mtech.Queue.Keeps.{quiet-Result}
use mtech.Queue.Accesses.{move-Result}

-- Every step keeps the invariant, and the list answers to its event.
pub Step-Inv :
    (o : Order) (s t : System) (event : Event)
    → Inv o s
    → (step : Step s event t) → IsNew step
    → (o' : Order) × Inv o' t × (observe event (contents o s.queue) ≡ some (contents o' t.queue))
unfolding Knows IsNew
Step-Inv o s t event inv (call_enq i v at) new =
    quiet-Result o s i inv (Pc.enq_new v) tt (sym (ap held at))
Step-Inv o s t event inv (call_deq i at) new =
    quiet-Result o s i inv Pc.deq_loop tt (sym (ap held at))
Step-Inv o s t event inv (moves i fails a {q} {p} {event = ev} given m) new =
    move-Result o s i inv (s.pc i) fails a (q, p, ev) refl (inv.knows i)
      (λ h. let g = given h in record { not_null = g.not_null; small = g.small; unused = new h }) m
Step-Inv o s t event inv (enq_back i v at) new =
    quiet-Result o s i inv Pc.idle tt (sym (ap held at))
Step-Inv o s t event inv (deq_back i answer at) new =
    quiet-Result o s i inv Pc.idle tt (sym (ap held at))

-- The only node is the dummy.
pub init-Inv :
    (dummy : ℕ)
    → 0 < dummy
    → dummy < pointers
    → Inv (record { path = λ k. dummy; last = 0; first = 0; end = 0 }) (init dummy)
unfolding construct Knows
init-Inv dummy positive small =
    let word = extract_ptr-pack_ptr dummy 0 small in
    record {
      linked = record {
        head_at = word;
        tail_at = word;
        head_le = omega arith;
        tail_le = omega arith;
        lag = omega arith;
        next_at = λ k h. absurd (omega arith);
        end_at = ground arith;
        positive = λ k h. positive;
        small = λ k h. small;
        distinct = λ j k h h' e. omega arith;
        born = λ k h. ground arith;
        kept = λ k lo h. ground arith;
      };
      knows = λ i. tt;
      apart = λ i j a ne h h'. cc;
      accounted = λ a alive.
          inl (record { at = 0; from = omega arith; to = omega arith; here = ground arith });
    }

pub reach-Inv :
    (dummy : ℕ) (events : List Event) (s : System)
    → 0 < dummy
    → dummy < pointers
    → (run : Reach dummy events s) → NeverReuses run
    → (o : Order) × Inv o s × (replay events ≡ some (contents o s.queue))
unfolding replay slice NeverReuses
reach-Inv dummy events s positive small start never = (_, init-Inv dummy positive small, refl)
reach-Inv dummy events s positive small (later {events = before} {s = s'} {event} r step)
      (never, new) =
    let (o, inv, seen) = reach-Inv dummy before s' positive small r never in
    let (o', inv', answer) = Step-Inv o s' s event inv step new in
    (o', inv', ap (λ x. x >>= observe event) seen ∙ answer)
