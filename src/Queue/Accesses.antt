-- ===== src/Queue/Accesses.antt =====
-- One access of `enq` or `deq` of cs636/assignment2/problem2/241110079.h keeps the invariant.
use mtech.Prelude.{
  ℕ, suc, ◌-◌, ◌≤◌, ◌<◌, ◌≡◌, ◌≢◌, ◌∙◌, inl, inr, refl, ap, sym, subst, some, none, arith, ◌==◌,
  ◌>>=◌, Option, Bool, true, false, Bool-cases,
}
use mtech.Queue.Word.{extract_ptr, pack_ptr, next_tag, extract_ptr-pack_ptr, pointers}
use mtech.Queue.State.{Node, Queue, Pc, Event}
use mtech.Queue.Move.{Moved, move, read, exchanges, enq_test, help, link, swing, deq_test, advance}
use mtech.Queue.System.{System, IsFresh, allocates, observe}
use mtech.Queue.Invariant.{
  Order, Linked, Own, Points, Follows, Precedes, Knows, held, Inv, contents, slice,
}
use mtech.Queue.Keeps.{Result, quiet-Inv, quiet-Result}
use mtech.Queue.Keeps.Moving.{allocate-Result, tail-Result}
use mtech.Queue.Keeps.Ends.{advance-Result, delete-Result, link-Result, is_last}

some_inj : {A : Type 0} {a b : A} → some a ≡ some b → a ≡ b
some_inj e = cc e

-- What a read that succeeded has read.
read-some :
    {A : Type 0} (q : Queue) (p : ℕ) (f : Node → Option A) (x : A)
    → (read q p >>= f) ≡ some x
    → f (q.nodes p) ≡ some x
unfolding read
read-some q p f x e = ground arith

module _ (o : Order) (s : System) (i : ℕ) (inv : Inv o s) where
  abbrev l : Linked o s.queue
  l = inv.linked

  -- A pointer to a node with a successor.
  successor :
      (b p : ℕ) (pt : Points o b p)
      → b ≤ o.last
      → (s.queue.nodes p).next ≢ 0
      → Follows o b p (s.queue.nodes p).next
  successor b p pt inside some_next =
      let before : pt.at < o.last = ground (arith, l.end_at, pt.here, pt.below) in
      record {
        at = pt.at;
        below = pt.below;
        inside = before;
        here = pt.here;
        there = ap (λ a. (s.queue.nodes a).next) pt.here ∙ l.next_at pt.at before;
      }

  enq_test-Result :
      (v n t : ℕ)
      → held (s.pc i) ≡ some n
      → Own o s.queue v n
      → Points o o.end (extract_ptr t)
      → Result o s i (enq_test s.queue v n t (s.queue.nodes (extract_ptr t)).next)
  unfolding enq_test Knows
  enq_test-Result v n t mine w pt =
      let next = (s.queue.nodes (extract_ptr t)).next in
      elim (Bool-cases (next == 0)) [
        | inl e ↦ rw e (quiet-Result o s i inv _ (w, pt) (sym mine))
        | inr e ↦
            rw e
              (quiet-Result o s i inv _ (w, successor _ _ pt l.tail_le (ground arith)) (sym mine))
      ]

  -- The word that `help` and `deq` store points to the successor.
  next_ptr : (b p next : ℕ) (f : Follows o b p next) → extract_ptr next ≡ o.path (suc f.at)
  next_ptr b p next f =
      ap extract_ptr f.there ∙ extract_ptr-pack_ptr _ 0 (l.small (suc f.at) f.inside)

  word_of :
      (b p next tag : ℕ) (f : Follows o b p next)
      → extract_ptr (pack_ptr (extract_ptr next) tag) ≡ o.path (suc f.at)
  word_of b p next tag f =
      let there = next_ptr b p next f in
      extract_ptr-pack_ptr (extract_ptr next) tag
        (subst (λ a. a < pointers) (sym there) (l.small (suc f.at) f.inside))
      ∙ there

  helped :
      (b t next : ℕ)
      → Follows o b (extract_ptr t) next
      → Precedes o (extract_ptr t) (extract_ptr (pack_ptr (extract_ptr next) (next_tag t)))
  helped b t next f = record {
    at = f.at;
    inside = f.inside;
    here = f.here;
    there = word_of _ _ _ _ f;
  }

  swung :
      (t n : ℕ)
      → Precedes o (extract_ptr t) n
      → Precedes o (extract_ptr t) (extract_ptr (pack_ptr n (next_tag t)))
  swung t n f = record {
    at = f.at;
    inside = f.inside;
    here = f.here;
    there =
        extract_ptr-pack_ptr n _
          (subst (λ a. a < pointers) (sym f.there) (l.small (suc f.at) f.inside))
        ∙ f.there;
  }

  help-Result :
      (fails : Bool) (v n t next : ℕ)
      → held (s.pc i) ≡ some n
      → Own o s.queue v n
      → Follows o o.end (extract_ptr t) next
      → Result o s i (help fails s.queue v n t next)
  unfolding help exchanges Knows
  help-Result fails v n t next mine w f = elim (Bool-cases (exchanges fails s.queue.tail t)) [
    | inl e ↦ rw e (
        let tail_is : s.queue.tail ≡ t = ground arith in
        tail-Result o s i inv t _ (Pc.enq_loop v n) tail_is (helped o.end t next f)
          (λ x path last first end. record {
            live = w.live;
            alone = w.alone;
            holds_value = w.holds_value;
            positive = w.positive;
            small = w.small;
            away = λ k inside. ground (arith, w.away k);
          })
          (sym mine))
    | inr e ↦ rw e (quiet-Result o s i inv _ w (sym mine))
  ]

  swing-Result :
      (v n t : ℕ)
      → held (s.pc i) ≡ none
      → Precedes o (extract_ptr t) n
      → Result o s i (swing s.queue v n t)
  unfolding swing exchanges Knows
  swing-Result v n t nothing f = elim (Bool-cases (exchanges false s.queue.tail t)) [
    | inl e ↦ rw e (
        let tail_is : s.queue.tail ≡ t = ground arith in
        tail-Result o s i inv t _ (Pc.enq_returned v) tail_is (swung t n f)
          (λ x path last first end. tt) (sym nothing))
    | inr e ↦ rw e (quiet-Result o s i inv _ tt (sym nothing))
  ]

  link-or-Result :
      (fails : Bool) (v n t : ℕ)
      → held (s.pc i) ≡ some n
      → Own o s.queue v n
      → Points o o.end (extract_ptr t)
      → Result o s i (link fails s.queue (s.queue.nodes (extract_ptr t)) v n t)
  unfolding link exchanges Knows
  link-or-Result fails v n t mine w pt =
      let node = s.queue.nodes (extract_ptr t) in
      elim (Bool-cases (exchanges fails node.next 0)) [
        | inl e ↦ rw e (link-Result o s i inv v n t (extract_ptr t) mine w pt refl (ground arith))
        | inr e ↦ rw e (quiet-Result o s i inv _ w (sym mine))
      ]

  none_left :
      o.last - o.first ≡ 0
      → observe Event.seen_empty (contents o s.queue) ≡ some (contents o s.queue)
  unfolding observe slice
  none_left e = rw e

  deq_test-Result :
      (h : ℕ)
      → held (s.pc i) ≡ none
      → Points o o.first (extract_ptr h)
      → Result o s i (deq_test s.queue h (s.queue.nodes (extract_ptr h)).next)
  unfolding deq_test Knows
  deq_test-Result h nothing pt =
      let next = (s.queue.nodes (extract_ptr h)).next in
      elim (Bool-cases (next == 0)) [
        | inl e ↦ rw e (
            let last_one = is_last o s i inv o.first _ pt l.head_le (ground arith) in
            let no_value : o.last - o.first ≡ 0 = omega (arith, pt.below) in
            (o, quiet-Inv o s i inv _ tt (sym nothing), none_left no_value))
        | inr e ↦
            rw e
              (quiet-Result o s i inv _ (successor _ _ pt l.head_le (ground arith)) (sym nothing))
      ]

  advance-or-Result :
      (h next v : ℕ)
      → held (s.pc i) ≡ none
      → Follows o o.first (extract_ptr h) next
      → (s.queue.nodes (extract_ptr next)).value ≡ v
      → Result o s i (advance s.queue h next v)
  unfolding advance exchanges Knows
  advance-or-Result h next v nothing f value = elim (Bool-cases (exchanges false s.queue.head h)) [
    | inl e ↦ rw e (
        advance-Result o s i inv h _ next v (ground arith) f value
          (word_of _ _ _ _ f ∙ sym (next_ptr _ _ _ f)) nothing)
    | inr e ↦ rw e (quiet-Result o s i inv _ tt (sym nothing))
  ]

  -- Every access of a thread keeps the invariant, and the list answers to its event.
  pub move-Result :
      (p : Pc) (fails : Bool) (a : ℕ) (m : Moved)
      → s.pc i ≡ p
      → Knows o s.queue p
      → (allocates p ≡ true → IsFresh a s.queue.nodes)
      → move fails a s.queue p ≡ some m
      → Result o s i m
  unfolding move Knows allocates
  move-Result Pc.idle fails a m e w fresh h = cc
  move-Result (Pc.enq_returned v) fails a m e w fresh h = cc
  move-Result (Pc.deq_returned answer) fails a m e w fresh h = cc
  move-Result (Pc.enq_new v) fails a m e w fresh h =
      subst (Result o s i) (some_inj h) (allocate-Result o s i inv v a (fresh refl) (ap held e))
  move-Result (Pc.enq_loop v n) fails a m e w fresh h = subst (Result o s i) (some_inj h) (
      quiet-Result o s i inv _ (w, record { at = o.end; below = omega arith; here = l.tail_at })
        (sym (ap held e)))
  move-Result (Pc.enq_loaded v n t) fails a m e (w, pt) fresh h =
      subst (Result o s i) (some_inj (read-some s.queue _ _ m h))
        (enq_test-Result v n t (ap held e) w pt)
  move-Result (Pc.enq_help v n t next) fails a m e (w, f) fresh h =
      subst (Result o s i) (some_inj h) (help-Result fails v n t next (ap held e) w f)
  move-Result (Pc.enq_link v n t) fails a m e (w, pt) fresh h =
      subst (Result o s i) (some_inj (read-some s.queue _ _ m h))
        (link-or-Result fails v n t (ap held e) w pt)
  move-Result (Pc.enq_swing v n t) fails a m e w fresh h =
      subst (Result o s i) (some_inj h) (swing-Result v n t (ap held e) w)
  move-Result Pc.deq_loop fails a m e w fresh h = subst (Result o s i) (some_inj h) (
      quiet-Result o s i inv _ (record { at = o.first; below = omega arith; here = l.head_at })
        (sym (ap held e)))
  move-Result (Pc.deq_loaded b) fails a m e w fresh h =
      subst (Result o s i) (some_inj (read-some s.queue _ _ m h)) (deq_test-Result b (ap held e) w)
  move-Result (Pc.deq_next b next) fails a m e w fresh h =
      subst (Result o s i) (some_inj (read-some s.queue _ _ m h))
        (quiet-Result o s i inv _ (w, refl) (sym (ap held e)))
  move-Result (Pc.deq_value b next v) fails a m e (f, value) fresh h =
      subst (Result o s i) (some_inj h) (advance-or-Result b next v (ap held e) f value)
  move-Result (Pc.deq_delete n v) fails a m e w fresh h =
      subst (Result o s i) (some_inj (read-some s.queue _ _ m h))
        (delete-Result o s i inv n v (ap held e) w)
