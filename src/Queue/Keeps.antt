-- ===== src/Queue/Keeps.antt =====
-- One access of a thread to the queue of cs636/assignment2/problem2/241110079.h keeps the invariant:
-- the accesses that leave the order of the nodes as it is.
pub mod Moving
pub mod Ends
use mtech.Prelude.{
  ℕ, suc, ◌-◌, ◌≤◌, ◌<◌, ◌≡◌, ◌≢◌, ◌⊎◌, inl, inr, refl, ap, Option, some, none, arith, ◌==◌,
  if◌then◌else◌, ℕ_discrete, true, false, Bool,
}
use mtech.Prelude.Family.{update}
use mtech.Queue.Word.{extract_ptr, pack_ptr, extract_ptr-pack_ptr}
use mtech.Queue.State.{Life, Node, new_node, Queue, Pc, Event}
use mtech.Queue.Move.{Moved, read, exchanges, allocate, delete, set_next}
use mtech.Queue.System.{System, IsFresh, observe}
use mtech.Queue.Invariant.{
  Order, Linked, Own, Points, Follows, Precedes, Left, Knows, held, Inv, InQueue, contents,
  value_at, slice_ext,
}
use mtech.Queue.Frame.{Extends, Spared, Knows-frame}

-- The invariant after a step, and the answer of the observer.
abbrev pub Result : Order → System → ℕ → Moved → Type 0
Result o s i (q, p, event) =
    (o' : Order) × Inv o' (record { queue = q; pc = update s.pc i p })
    × (observe event (contents o s.queue) ≡ some (contents o' q))

-- A node that a thread has is in use, and is not in the queue.
pub record Outside (o : Order) (q : Queue) (a : ℕ) : Type 0 where
  pub live : (q.nodes a).life ≡ Life.live
  pub away : (k : ℕ) → o.first ≤ k → k ≤ o.last → o.path k ≢ a

module _ (o : Order) (q : Queue) (l : Linked o q) where
  Own-Outside : (v n a : ℕ) → some n ≡ some a → Own o q v n → Outside o q a
  Own-Outside v n a e w = record {
    live = ground (arith, w.live);
    away = λ k lo hi. ground (arith, w.away k);
  }

  pub held-Outside : (p : Pc) (a : ℕ) → held p ≡ some a → Knows o q p → Outside o q a
  unfolding Knows
  held-Outside (Pc.enq_loop v n) a e w = Own-Outside v n a e w
  held-Outside (Pc.enq_loaded v n t) a e (w, pt) = Own-Outside v n a e w
  held-Outside (Pc.enq_help v n t next) a e (w, f) = Own-Outside v n a e w
  held-Outside (Pc.enq_link v n t) a e (w, pt) = Own-Outside v n a e w
  held-Outside (Pc.deq_delete n v) a e w = record {
    live = ground (arith, w.live);
    away =
        λ k lo hi. ground (arith, w.here, l.distinct w.at k (omega (arith, w.below)) hi, w.below);
  }
  held-Outside Pc.idle a e w = cc
  held-Outside (Pc.enq_new v) a e w = cc
  held-Outside (Pc.enq_swing v n t) a e w = cc
  held-Outside (Pc.enq_returned v) a e w = cc
  held-Outside Pc.deq_loop a e w = cc
  held-Outside (Pc.deq_loaded h) a e w = cc
  held-Outside (Pc.deq_next h next) a e w = cc
  held-Outside (Pc.deq_value h next v) a e w = cc
  held-Outside (Pc.deq_returned answer) a e w = cc

-- A node of the queue, or of the thread that moved.
abbrev pub Housed : Order → Pc → ℕ → Type 0
Housed o p a = InQueue o a ⊎ (held p ≡ some a)

module _ (o : Order) (s : System) (i : ℕ) (inv : Inv o s) where
  -- Thread `i` moves: the others know what they knew, and have what they had.
  pub moved-Inv :
      (o' : Order) (q' : Queue) (p' : Pc)
      → Linked o' q'
      → Extends o s.queue o' q'
      → Knows o' q' p'
      → ((a : ℕ) → held p' ≡ some a → (held (s.pc i) ≡ some a) ⊎ (¬ Outside o s.queue a))
      → ((j a : ℕ) → i ≢ j → held (s.pc j) ≡ some a → Spared o s.queue o' q' a)
      → ((a : ℕ)
          → (q'.nodes a).life ≡ Life.live
          → Housed o' p' a
            ⊎ (((s.queue.nodes a).life ≡ Life.live)
                × (InQueue o a → Housed o' p' a)
                × (held (s.pc i) ≡ some a → Housed o' p' a)))
      → Inv o' (record { queue = q'; pc = update s.pc i p' })
  moved-Inv o' q' p' l x w own others home = record {
    linked = l;
    knows = λ j. elim (ℕ_discrete i j) [
      | yes here ↦ ground arith
      | no there ↦
          let k =
            Knows-frame o s.queue o' q' x inv.linked (s.pc j) (λ a h. others j a there h)
              (inv.knows j) in
          ground arith
    ];
    apart = λ j k a ne h h'. elim (ℕ_discrete i j) [
      | yes here ↦ private_of k a (ground arith) (ground arith) (ground arith)
      | no there ↦ elim (ℕ_discrete i k) [
        | yes here ↦ private_of j a (ground arith) (ground arith) (ground arith)
        | no elsewhere ↦ inv.apart j k a ne (ground arith) (ground arith)
      ]
    ];
    accounted = λ a alive. elim (home a alive) [
      | inl there ↦ housed a there
      | inr (before, from_queue, from_thread) ↦ elim (inv.accounted a before) [
        | inl there ↦ housed a (from_queue there)
        | inr (j, h) ↦ elim (ℕ_discrete i j) [
          | yes here ↦ housed a (from_thread (ground arith))
          | no other ↦ inr (j, ground arith)
        ]
      ]
    ];
  }
    where
      housed :
          (a : ℕ) → Housed o' p' a → InQueue o' a ⊎ ((j : ℕ) × (held (update s.pc i p' j) ≡ some a))
      housed a (inl there) = inl there
      housed a (inr h) = inr (i, ground arith)

      private_of : (k a : ℕ) → i ≢ k → held p' ≡ some a → held (s.pc k) ≢ some a
      private_of k a ne h h' = elim (own a h) [
        | inl mine ↦ inv.apart i k a ne mine h'
        | inr dead ↦ dead (held-Outside o s.queue inv.linked (s.pc k) a h' (inv.knows k))
      ]

  -- A step that changes the thread only.
  pub quiet-Inv :
      (p' : Pc)
      → Knows o s.queue p'
      → held p' ≡ held (s.pc i)
      → Inv o (record { queue = s.queue; pc = update s.pc i p' })
  quiet-Inv p' w same =
      moved-Inv o s.queue p' inv.linked
        (record {
          last_le = omega arith;
          first_le = omega arith;
          end_le = omega arith;
          path_same = λ k h. refl;
          value_same = λ k h. refl;
        })
        w (λ a h. inl (cc))
        (λ j a ne h. record { node_same = refl; unlinked = λ k lo hi. absurd (omega arith) })
        (λ a alive. inr (alive, inl, λ h. inr (cc)))

  pub quiet-Result :
      (p' : Pc)
      → Knows o s.queue p'
      → held p' ≡ held (s.pc i)
      → Result o s i (s.queue, p', Event.silent)
  unfolding observe
  quiet-Result p' w same = (o, quiet-Inv p' w same, refl)
