-- ===== src/Queue/Solo/Enq.antt =====
-- `enq` of cs636/assignment2/problem2/241110079.h that runs alone.
use mtech.Prelude.{
  ℕ, zero, suc, ◌≤◌, ◌<◌, ◌≡◌, ◌∙◌, refl, ap, sym, subst, some, arith, ℕ_discrete, List, [], ◌∷◌,
  ◌++◌, false,
}
use mtech.Queue.Word.{extract_ptr, pack_ptr, next_tag, extract_ptr-pack_ptr, pack_ptr_pos, pointers}
use mtech.Queue.State.{Life, Node, Queue, Pc, Event}
use mtech.Queue.Move.{move, read, exchanges, enq_test, help, link, swing, allocate, set_next}
use mtech.Queue.System.{IsFresh, observe, replay}
use mtech.Queue.Invariant.{Order, Linked}
use mtech.Queue.Solo.{alone, step, back}

-- A node is linked and the tail moved, when the tail points to the last node.
module _ (a v n : ℕ) (q : Queue) where
  abbrev last_node : ℕ
  last_node = extract_ptr q.tail

  load_null :
      (q.nodes last_node).life ≡ Life.live
      → (q.nodes last_node).next ≡ 0
      → move false a q (Pc.enq_loaded v n q.tail) ≡ some (q, Pc.enq_link v n q.tail, Event.silent)
  unfolding move read enq_test
  load_null live null = ground arith

  store_next :
      (q.nodes last_node).life ≡ Life.live
      → (q.nodes last_node).next ≡ 0
      → move false a q (Pc.enq_link v n q.tail)
        ≡ some (set_next last_node (pack_ptr n 0) q, Pc.enq_swing v n q.tail, Event.added v)
  unfolding move read link exchanges
  store_next live null = ground arith

  enq_behind :
      (turns : ℕ) (events : List Event)
      → 4 ≤ turns
      → (q.nodes last_node).life ≡ Life.live
      → (q.nodes last_node).next ≡ 0
      → (q' : Queue) × (alone turns a events q (Pc.enq_loop v n)
          ≡ some (
            q',
            Pc.enq_returned v,
            Event.silent ∷ Event.added v ∷ Event.silent ∷ Event.silent ∷ events,
          ))
  unfolding move swing
  enq_behind (suc (suc (suc (suc turns)))) events h live null = (
    _,
    step a _ _ _ _ _ _ _ refl refl
        ∙ (step a _ _ _ _ _ _ _ refl (load_null live null)
            ∙ (step a _ _ _ _ _ _ _ refl (store_next live null)
                ∙ (step a _ _ _ _ _ _ _ refl refl ∙ back a turns _ _ _ refl))),
  )
  enq_behind (suc (suc (suc zero))) events h live null = absurd (omega arith)
  enq_behind (suc (suc zero)) events h live null = absurd (omega arith)
  enq_behind (suc zero) events h live null = absurd (omega arith)
  enq_behind zero events h live null = absurd (omega arith)

module _ (o : Order) (q : Queue) (l : Linked o q) (v a : ℕ) (fresh : IsFresh a q.nodes) where
  abbrev made : Queue
  made = allocate a v q

  made-path : (k : ℕ) → k ≤ o.last → made.nodes (o.path k) ≡ q.nodes (o.path k)
  unfolding allocate
  made-path k h = ground (arith, l.born k h, fresh.unused)

  made-tail : made.tail ≡ q.tail
  unfolding allocate
  made-tail = refl

  module _ (live : (q.nodes (o.path o.end)).life ≡ Life.live) where
    abbrev follower : ℕ
    follower = (made.nodes (extract_ptr q.tail)).next

    follower-word : o.end < o.last → follower ≡ pack_ptr (o.path (suc o.end)) 0
    follower-word h =
        ap (λ p. (made.nodes p).next) l.tail_at
        ∙ (ap Node.next (made-path o.end l.tail_le) ∙ l.next_at o.end h)

    load_some :
        o.end < o.last
        → move false a made (Pc.enq_loaded v a q.tail)
          ≡ some (made, Pc.enq_help v a q.tail follower, Event.silent)
    unfolding move read enq_test
    load_some h =
        let positive = pack_ptr_pos (o.path (suc o.end)) 0 (l.positive _ h) (l.small _ h) in
        let word = follower-word h in
        let same = made-path o.end l.tail_le in let here = l.tail_at in ground (arith, live)

    abbrev helped : Queue
    helped = record made { tail = pack_ptr (extract_ptr follower) (next_tag q.tail) }

    help_tail :
        move false a made (Pc.enq_help v a q.tail follower)
        ≡ some (helped, Pc.enq_loop v a, Event.silent)
    unfolding move help exchanges
    help_tail = let same = made-tail in ground arith

    helped-tail : o.end < o.last → extract_ptr helped.tail ≡ o.path o.last
    helped-tail h =
        let there : extract_ptr follower ≡ o.path (suc o.end) =
          ap extract_ptr (follower-word h) ∙ extract_ptr-pack_ptr _ 0 (l.small _ h) in
        let last_one : suc o.end ≡ o.last = omega (arith, l.lag) in
        extract_ptr-pack_ptr (extract_ptr follower) _
          (subst (λ p. p < pointers) (sym there) (l.small _ h))
        ∙ (there ∙ ap o.path last_one)

    -- The node of the tail, when it is the last one, is as `enq` expects it.
    last-node :
        (p : ℕ) → p ≡ o.path o.last → ((made.nodes p).life ≡ Life.live) × ((made.nodes p).next ≡ 0)
    last-node p e =
        let same = made-path o.last (omega arith) in
        let alive = l.kept o.last l.head_le (omega arith) in
        let null = l.end_at in (ground arith, ground arith)

    pub enq_lone :
        (events : List Event) (xs : List ℕ)
        → replay events ≡ some xs
        → (q' : Queue) × (es : List Event) × (alone 8 a events q (Pc.enq_new v)
            ≡ some (q', Pc.enq_returned v, es))
          × (replay es ≡ some (xs ++ v ∷ []))
    unfolding move replay observe allocate
    enq_lone events xs seen = elim (ℕ_discrete o.end o.last) [
      | yes e ↦
          let (alive, null) = last-node (extract_ptr made.tail) (l.tail_at ∙ ap o.path e) in
          let (q', run) =
            enq_behind a v a made 7 (Event.silent ∷ events) (omega arith) alive null in
          (q', _, step a _ _ _ _ _ _ _ refl refl ∙ run, rw seen refl)
      | no e ↦
          let h : o.end < o.last = omega (arith, l.tail_le) in
          let (alive, null) = last-node (extract_ptr helped.tail) (helped-tail h) in
          let (q', run) =
            enq_behind a v a helped 4
              (Event.silent ∷ Event.silent ∷ Event.silent ∷ Event.silent ∷ events) (omega arith)
              alive null in
          (
            q',
            _,
            step a _ _ _ _ _ _ _ refl refl
                ∙ (step a _ _ _ _ _ _ _ refl refl
                    ∙ (step a _ _ _ _ _ _ _ refl (load_some h)
                        ∙ (step a _ _ _ _ _ _ _ refl help_tail ∙ run))),
            rw seen refl,
          )
    ]
