-- ===== src/Queue/Frame.antt =====
-- What a thread of cs636/assignment2/problem2/241110079.h knows while another one moves.
use mtech.Prelude.{ℕ, suc, ◌≤◌, ◌<◌, ◌≡◌, ◌≢◌, refl, some, arith}
use mtech.Queue.Word.{extract_ptr, extract_ptr-pack_ptr}
use mtech.Queue.State.{Queue, Pc}
use mtech.Queue.Invariant.{Order, Linked, Own, Points, Follows, Precedes, Left, Knows, held}

-- The order only grows at its end, and linked nodes keep their values.
pub record Extends (o : Order) (q : Queue) (o' : Order) (q' : Queue) : Type 0 where
  pub last_le : o.last ≤ o'.last
  pub first_le : o.first ≤ o'.first
  pub end_le : o.end ≤ o'.end
  pub path_same : (k : ℕ) → k ≤ o.last → o'.path k ≡ o.path k
  pub value_same : (k : ℕ) → k ≤ o.last → (q'.nodes (o.path k)).value ≡ (q.nodes (o.path k)).value

-- A node that is as it was, and not linked meanwhile.
pub record Spared (o : Order) (q : Queue) (o' : Order) (q' : Queue) (a : ℕ) : Type 0 where
  pub node_same : q'.nodes a ≡ q.nodes a
  pub unlinked : (k : ℕ) → o.last < k → k ≤ o'.last → o'.path k ≢ a

module _ (o : Order) (q : Queue) (o' : Order) (q' : Queue) (x : Extends o q o' q') where
  Points-frame : (b b' p : ℕ) → b ≤ b' → b ≤ o.last → Points o b p → Points o' b' p
  Points-frame b b' p grows inside pt = record {
    at = pt.at;
    below = omega arith;
    here = ground (arith, x.path_same pt.at);
  }

  Follows-frame : (b b' p n : ℕ) → b ≤ b' → Follows o b p n → Follows o' b' p n
  Follows-frame b b' p n grows f = record {
    at = f.at;
    below = omega arith;
    inside = omega (arith, x.last_le);
    here = ground (arith, x.path_same f.at);
    there = ground (arith, x.path_same (suc f.at));
  }

  Precedes-frame : (p n : ℕ) → Precedes o p n → Precedes o' p n
  Precedes-frame p n f = record {
    at = f.at;
    inside = omega (arith, x.last_le);
    here = ground (arith, x.path_same f.at);
    there = ground (arith, x.path_same (suc f.at));
  }

  Left-frame : (n : ℕ) → o.first ≤ o.last → Spared o q o' q' n → Left o q n → Left o' q' n
  Left-frame n inside s l = record {
    at = l.at;
    below = omega (arith, x.first_le);
    here = ground (arith, x.path_same l.at);
    live = ground (arith, s.node_same);
  }

  Own-frame : (v n : ℕ) → Spared o q o' q' n → Own o q v n → Own o' q' v n
  Own-frame v n s w = record {
    live = ground (arith, s.node_same);
    alone = ground (arith, s.node_same);
    holds_value = ground (arith, s.node_same);
    positive = w.positive;
    small = w.small;
    away = λ k inside. ground (arith, w.away k, s.unlinked k, x.path_same k);
  }

  value-frame :
      (b p n v : ℕ)
      → Linked o q
      → Follows o b p n
      → (q.nodes (extract_ptr n)).value ≡ v
      → (q'.nodes (extract_ptr n)).value ≡ v
  value-frame b p n v l f e = ground (
    arith,
    x.value_same (suc f.at),
    extract_ptr-pack_ptr (o.path (suc f.at)) 0 (l.small (suc f.at) f.inside),
  )

  pub Knows-frame :
      Linked o q
      → (p : Pc) → ((a : ℕ) → held p ≡ some a → Spared o q o' q' a)
      → Knows o q p
      → Knows o' q' p
  unfolding Knows
  Knows-frame l Pc.idle s w = tt
  Knows-frame l (Pc.enq_new v) s w = tt
  Knows-frame l (Pc.enq_loop v n) s w = Own-frame v n (s n refl) w
  Knows-frame l (Pc.enq_loaded v n t) s (w, pt) =
      (Own-frame v n (s n refl) w, Points-frame _ _ _ x.end_le l.tail_le pt)
  Knows-frame l (Pc.enq_help v n t next) s (w, f) =
      (Own-frame v n (s n refl) w, Follows-frame _ _ _ _ x.end_le f)
  Knows-frame l (Pc.enq_link v n t) s (w, pt) =
      (Own-frame v n (s n refl) w, Points-frame _ _ _ x.end_le l.tail_le pt)
  Knows-frame l (Pc.enq_swing v n t) s w = Precedes-frame _ _ w
  Knows-frame l (Pc.enq_returned v) s w = tt
  Knows-frame l Pc.deq_loop s w = tt
  Knows-frame l (Pc.deq_loaded h) s w = Points-frame _ _ _ x.first_le l.head_le w
  Knows-frame l (Pc.deq_next h next) s w = Follows-frame _ _ _ _ x.first_le w
  Knows-frame l (Pc.deq_value h next v) s (f, e) =
      (Follows-frame _ _ _ _ x.first_le f, value-frame _ _ _ _ l f e)
  Knows-frame l (Pc.deq_delete n v) s w = Left-frame n l.head_le (s n refl) w
  Knows-frame l (Pc.deq_returned answer) s w = tt
