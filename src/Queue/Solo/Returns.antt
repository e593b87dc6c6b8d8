-- ===== src/Queue/Solo/Returns.antt =====
-- What a call of cs636/assignment2/problem2/241110079.h that runs alone returns.
use mtech.Prelude.{ℕ, ◌%◌, ◌<◌, ◌≡◌, ◌∙◌, ap, sym, some, none, Option, List, [], ◌∷◌, ◌++◌}
use mtech.Queue.Word.{extract_ptr, extract_tag, pointers, tags}
use mtech.Queue.State.{Life, Queue, Pc, Event}
use mtech.Queue.Move.{}
use mtech.Queue.System.{System, Reach, NeverReuses, IsFresh, replay}
use mtech.Queue.Linear.{reach-Inv}
use mtech.Queue.Solo.{alone}
use mtech.Queue.Tags.{removals, reach-IsCount, alone-IsCount}
use mtech.Queue.Solo.Enq.{enq_lone}

-- What `deq` answers to a list, and what is left of it.
abbrev pub oldest : List ℕ → Option ℕ
oldest [] = none
oldest (x ∷ xs) = some x

abbrev pub rest : List ℕ → List ℕ
rest [] = []
rest (x ∷ xs) = xs

module _ (dummy : ℕ) (positive : 0 < dummy) (small : dummy < pointers) (events : List Event)
    (s : System) (run : Reach dummy events s) (never : NeverReuses run) where
  counted :
      (turns a : ℕ) (p : Pc) {es : List Event} {q : Queue} {p' : Pc}
      → alone turns a events s.queue p ≡ some (q, p', es)
      → extract_tag q.head ≡ removals es % tags
  counted turns a p {es} {q} {p'} done =
      alone-IsCount turns a events es s.queue q p p' done (reach-IsCount run)

  -- A call of `enq` that gets an address that no node has had and runs alone from any state of a run
  -- in which `new` gave no address again that was given back, and in which the node of the tail is not
  -- deleted, returns within eight steps when no weak exchange fails for no reason, and puts the value
  -- behind the others. The tag of the head is the number of the values taken, modulo 2 ^ 16.
  pub enq-alone :
      (v a : ℕ)
      → IsFresh a s.queue.nodes
      → (s.queue.nodes (extract_ptr s.queue.tail)).life ≡ Life.live
      → (xs : List ℕ) × (q : Queue) × (es : List Event) × (replay events ≡ some xs)
        × (alone 8 a events s.queue (Pc.enq_new v) ≡ some (q, Pc.enq_returned v, es))
        × (replay es ≡ some (xs ++ v ∷ []))
        × (extract_tag q.head ≡ removals es % tags)
  enq-alone v a fresh live =
      let (o, inv, seen) = reach-Inv dummy events s positive small run never in
      let (q, es, done, answer) =
        enq_lone o s.queue inv.linked v a fresh
          (ap (λ p. (s.queue.nodes p).life) (sym inv.linked.tail_at) ∙ live) events _ seen in
      (_, q, es, seen, done, answer, counted _ _ _ done)
