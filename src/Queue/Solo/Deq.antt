-- ===== src/Queue/Solo/Deq.antt =====
-- `deq` of cs636/assignment2/problem2/241110079.h that runs alone.
use mtech.Prelude.{ℕ, suc, ◌-◌, ◌<◌, ◌≡◌, ◌∙◌, refl, ap, some, none, arith, List, ◌∷◌, false}
use mtech.Queue.Word.{extract_ptr, pack_ptr, next_tag, extract_ptr-pack_ptr, pack_ptr_pos}
use mtech.Queue.State.{Queue, Pc, Event}
use mtech.Queue.Move.{move, read, exchanges, deq_test, advance, delete}
use mtech.Queue.Invariant.{Order, Linked, value_at}
use mtech.Queue.Solo.{alone, step, back}

module _ (o : Order) (q : Queue) (l : Linked o q) (events : List Event) (a : ℕ) where
  pub deq_empty :
      o.last - o.first ≡ 0
      → alone 6 a events q Pc.deq_loop
        ≡ some (q, Pc.deq_returned none, Event.seen_empty ∷ Event.silent ∷ events)
  unfolding alone move read deq_test
  deq_empty e =
      let here : o.first ≡ o.last = omega (arith, l.head_le) in
      rw l.head_at (ground (arith, l.kept o.first (omega arith) l.head_le, l.end_at))

  abbrev word : ℕ
  word = (q.nodes (o.path o.first)).next

  load_next :
      o.first < o.last
      → move false a q (Pc.deq_loaded q.head) ≡ some (q, Pc.deq_next q.head word, Event.silent)
  unfolding move read deq_test
  load_next h =
      let positive = pack_ptr_pos (o.path (suc o.first)) 0 (l.positive _ h) (l.small _ h) in
      rw l.head_at (ground (arith, l.kept o.first (omega arith) l.head_le, l.next_at o.first h))

  word_ptr : o.first < o.last → extract_ptr word ≡ o.path (suc o.first)
  word_ptr h = ap extract_ptr (l.next_at o.first h) ∙ extract_ptr-pack_ptr _ 0 (l.small _ h)

  load_value :
      o.first < o.last
      → move false a q (Pc.deq_next q.head word)
        ≡ some (q, Pc.deq_value q.head word (value_at o q (suc o.first)), Event.silent)
  unfolding move read
  load_value h = rw (word_ptr h) (ground (arith, l.kept (suc o.first) (omega arith) h))

  abbrev pub advanced : Queue
  advanced = record q { head = pack_ptr (extract_ptr word) (next_tag q.head) }

  store_head :
      (v : ℕ)
      → move false a q (Pc.deq_value q.head word v)
        ≡ some (advanced, Pc.deq_delete (extract_ptr q.head) v, Event.removed v)
  unfolding move advance exchanges
  store_head v = ground arith

  delete_old :
      (v : ℕ)
      → move false a advanced (Pc.deq_delete (extract_ptr q.head) v)
        ≡ some (delete (extract_ptr q.head) advanced, Pc.deq_returned (some v), Event.silent)
  unfolding move read
  delete_old v = rw l.head_at (ground (arith, l.kept o.first (omega arith) l.head_le))

  pub deq_some :
      o.first < o.last
      → alone 6 a events q Pc.deq_loop
        ≡ some (
          delete (extract_ptr q.head) advanced,
          Pc.deq_returned (some (value_at o q (suc o.first))),
          Event.silent
              ∷ Event.removed (value_at o q (suc o.first))
              ∷ Event.silent
              ∷ Event.silent
              ∷ Event.silent
              ∷ events,
        )
  unfolding move
  deq_some h =
      step a _ _ _ _ _ _ _ refl refl
      ∙ (step a _ _ _ _ _ _ _ refl (load_next h)
          ∙ (step a _ _ _ _ _ _ _ refl (load_value h)
              ∙ (step a _ _ _ _ _ _ _ refl (store_head _)
                  ∙ (step a _ _ _ _ _ _ _ refl (delete_old _) ∙ back a _ _ _ _ refl))))
