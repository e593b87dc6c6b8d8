-- ===== src/Queue/Tags.antt =====
-- The tag of the head of cs636/assignment2/problem2/241110079.h.
use mtech.Prelude.{
  ℕ, zero, suc, ◌+◌, ◌%◌, ◌≡◌, refl, some, none, arith, ◌==◌, ◌>>=◌, Option, List, [], ◌∷◌, Bool,
  false, Bool-cases, inl, inr, subst,
}
use mtech.Queue.Word.{extract_ptr, extract_tag, extract_tag-pack_ptr, next_tag, tags}
use mtech.Queue.State.{Node, Queue, construct, Pc, Event}
use mtech.Queue.Move.{
  Moved, move, read, exchanges, enq_test, help, link, swing, deq_test, advance, allocate, set_next,
  delete,
}
use mtech.Queue.System.{System, call_enq, call_deq, moves, enq_back, deq_back, Reach, start, later}
use mtech.Queue.Solo.{alone, is_back}

-- How many values an event takes.
abbrev takes : Event → ℕ
takes (Event.removed v) = 1
takes _ = 0

unfoldable pub removals : List Event → ℕ
removals [] = 0
removals (event ∷ events) = takes event + removals events

-- The tag counts what the event takes.
Counts : Queue → Moved → Type 0
Counts q (q', p, event) = extract_tag q'.head ≡ (extract_tag q.head + takes event) % tags

same-Counts :
    (q q' : Queue) (p : Pc) (event : Event)
    → q'.head ≡ q.head
    → takes event ≡ 0
    → Counts q (q', p, event)
unfolding Counts extract_tag
same-Counts q q' p event same none_taken = rw (same, none_taken) (omega arith)

advance-Counts : (q : Queue) (h next v : ℕ) → Counts q (advance q h next v)
unfolding advance Counts exchanges next_tag
advance-Counts q h next v = elim (Bool-cases (exchanges false q.head h)) [
  | inl e ↦
      let same : q.head ≡ h = ground arith in rw (e, same) (extract_tag-pack_ptr _ _ (omega arith))
  | inr e ↦ rw e (same-Counts q q Pc.deq_loop Event.silent refl refl)
]

some_inj : {A : Type 0} {a b : A} → some a ≡ some b → a ≡ b
some_inj e = cc e

read-some :
    (q : Queue) (p : ℕ) (f : Node → Option Moved) (x : Moved)
    → (read q p >>= f) ≡ some x
    → f (q.nodes p) ≡ some x
unfolding read
read-some q p f x e = ground arith

move-Counts :
    (fails : Bool) (a : ℕ) (q : Queue) (p : Pc) (m : Moved) → move fails a q p ≡ some m → Counts q m
unfolding move enq_test help link swing deq_test allocate set_next delete
move-Counts fails a q Pc.idle m e = cc
move-Counts fails a q (Pc.enq_returned v) m e = cc
move-Counts fails a q (Pc.deq_returned answer) m e = cc
move-Counts fails a q (Pc.enq_new v) m e =
    subst (Counts q) (some_inj e) (same-Counts q _ _ _ refl refl)
move-Counts fails a q (Pc.enq_loop v n) m e =
    subst (Counts q) (some_inj e) (same-Counts q _ _ _ refl refl)
move-Counts fails a q (Pc.enq_loaded v n t) m e =
    subst (Counts q) (some_inj (read-some q _ _ m e)) (same-Counts q _ _ _ refl refl)
move-Counts fails a q (Pc.enq_help v n t next) m e =
    subst (Counts q) (some_inj e) (same-Counts q _ _ _ (ground arith) refl)
move-Counts fails a q (Pc.enq_link v n t) m e =
    subst (Counts q) (some_inj (read-some q _ _ m e))
      (elim (Bool-cases (exchanges fails (q.nodes (extract_ptr t)).next 0)) [
        | inl stored ↦ rw stored (same-Counts q _ _ _ refl refl)
        | inr failed ↦ rw failed (same-Counts q _ _ _ refl refl)
      ])
move-Counts fails a q (Pc.enq_swing v n t) m e =
    subst (Counts q) (some_inj e) (same-Counts q _ _ _ (ground arith) refl)
move-Counts fails a q Pc.deq_loop m e =
    subst (Counts q) (some_inj e) (same-Counts q _ _ _ refl refl)
move-Counts fails a q (Pc.deq_loaded h) m e =
    let next = (q.nodes (extract_ptr h)).next in
    subst (Counts q) (some_inj (read-some q _ _ m e)) (elim (Bool-cases (next == 0)) [
      | inl null ↦ rw null (same-Counts q _ _ _ refl refl)
      | inr linked ↦ rw linked (same-Counts q _ _ _ refl refl)
    ])
move-Counts fails a q (Pc.deq_next h next) m e =
    subst (Counts q) (some_inj (read-some q _ _ m e)) (same-Counts q _ _ _ refl refl)
move-Counts fails a q (Pc.deq_value h next v) m e =
    subst (Counts q) (some_inj e) (advance-Counts q h next v)
move-Counts fails a q (Pc.deq_delete n v) m e =
    subst (Counts q) (some_inj (read-some q _ _ m e)) (same-Counts q _ _ _ refl refl)

-- The tag is the number of the values taken so far.
abbrev pub IsCount : List Event → Queue → Type 0
IsCount events q = extract_tag q.head ≡ removals events % tags

counted-IsCount :
    (events : List Event) (q q' : Queue) (p : Pc) (event : Event)
    → Counts q (q', p, event)
    → IsCount events q
    → IsCount (event ∷ events) q'
unfolding Counts removals
counted-IsCount events q q' p event step before = omega (arith, step, before)

pub reach-IsCount :
    {dummy : ℕ} {events : List Event} {s : System} → Reach dummy events s → IsCount events s.queue
unfolding removals construct
reach-IsCount {dummy} start = extract_tag-pack_ptr dummy 0 (omega arith)
reach-IsCount (later {events} {s} r (call_enq i v e)) =
    counted-IsCount events s.queue s.queue Pc.idle Event.silent
      (same-Counts s.queue s.queue Pc.idle Event.silent refl refl) (reach-IsCount r)
reach-IsCount (later {events} {s} r (call_deq i e)) =
    counted-IsCount events s.queue s.queue Pc.idle Event.silent
      (same-Counts s.queue s.queue Pc.idle Event.silent refl refl) (reach-IsCount r)
reach-IsCount (later {events} {s} r (moves i fails a {q} {p} {event} given e)) =
    counted-IsCount events s.queue q p event (move-Counts fails a s.queue (s.pc i) _ e)
      (reach-IsCount r)
reach-IsCount (later {events} {s} r (enq_back i v e)) =
    counted-IsCount events s.queue s.queue Pc.idle Event.silent
      (same-Counts s.queue s.queue Pc.idle Event.silent refl refl) (reach-IsCount r)
reach-IsCount (later {events} {s} r (deq_back i v e)) =
    counted-IsCount events s.queue s.queue Pc.idle Event.silent
      (same-Counts s.queue s.queue Pc.idle Event.silent refl refl) (reach-IsCount r)

some_bind :
    {A B : Type 0} (m : Option A) (f : A → Option B) (b : B)
    → (m >>= f) ≡ some b
    → (a : A) × (m ≡ some a) × (f a ≡ some b)
some_bind none f b e = cc
some_bind (some a) f b e = (a, refl, e)

pub alone-IsCount :
    (turns a : ℕ) (events es : List Event) (q q' : Queue) (p p' : Pc)
    → alone turns a events q p ≡ some (q', p', es)
    → IsCount events q
    → IsCount es q'
unfolding alone
alone-IsCount zero a events es q q' p p' e before = elim (Bool-cases (is_back p)) [
  | inl out ↦ ground arith
  | inr inside ↦ absurd (ground arith)
]
alone-IsCount (suc turns) a events es q q' p p' e before = elim (Bool-cases (is_back p)) [
  | inl out ↦ ground arith
  | inr inside ↦
      let on : (move false a q p >>= λ (q1, p1, event). alone turns a (event ∷ events) q1 p1)
          ≡ some (q', p', es) =
        rw inside at e in
      let ((q1, p1, event), moved, rest) = some_bind (move false a q p) _ _ on in
      alone-IsCount turns a (event ∷ events) es q1 q' p1 p' rest
        (counted-IsCount events q q1 p1 event (move-Counts false a q p _ moved) before)
]
