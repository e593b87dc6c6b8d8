-- ===== src/Queue/Keeps/Ends.antt =====
-- The accesses of cs636/assignment2/problem2/241110079.h that add and remove nodes.
use mtech.Prelude.{
  ℕ, zero, suc, ◌+◌, ◌-◌, ◌≤◌, ◌<◌, ◌≡◌, ◌≢◌, ◌∙◌, ◌++◌, ◌∷◌, [], inl, inr, refl, ap, sym, some,
  none, arith, ℕ_discrete,
}
use mtech.Prelude.Family.{update}
use mtech.Queue.Word.{extract_ptr, pack_ptr, extract_ptr-pack_ptr, pack_ptr_pos}
use mtech.Queue.State.{Pc, Event}
use mtech.Queue.Move.{delete, set_next}
use mtech.Queue.System.{System, observe}
use mtech.Queue.Invariant.{
  Order, Linked, Own, Points, Follows, Left, Knows, held, Inv, value_at, slice, slice_ext,
  slice_snoc,
}
use mtech.Queue.Keeps.{Result, Outside, held-Outside, moved-Inv}

-- The oldest value is taken.
taken :
    (f : ℕ → ℕ) (a m n v : ℕ)
    → m ≡ suc n
    → v ≡ f (suc a)
    → observe (Event.removed v) (slice f a m) ≡ some (slice f (suc a) n)
unfolding observe slice
taken f a zero n v e same = absurd (omega arith)
taken f a (suc m) n v e same = ground arith

-- A value is put behind the others.
put_behind :
    (f g : ℕ → ℕ) (a m n v : ℕ)
    → n ≡ suc m
    → ((k : ℕ) → a < k → k ≤ a + m → f k ≡ g k)
    → g (suc a + m) ≡ v
    → observe (Event.added v) (slice f a m) ≡ some (slice g a n)
unfolding observe
put_behind f g a m n v size same newest = ap some (
    ap (λ xs. xs ++ v ∷ []) (slice_ext f g a m same)
    ∙ (ap (λ x. slice g a m ++ x ∷ []) (sym newest)
        ∙ (sym (slice_snoc g a m) ∙ ap (slice g a) (sym size))))

module _ (o : Order) (s : System) (i : ℕ) (inv : Inv o s) where
  abbrev l : Linked o s.queue
  l = inv.linked

  outside : (j a : ℕ) → held (s.pc j) ≡ some a → Outside o s.queue a
  outside j a h = held-Outside o s.queue l (s.pc j) a h (inv.knows j)

  -- The head moves to its successor, and its value is out of the queue.
  pub advance-Result :
      (h w next v : ℕ)
      → s.queue.head ≡ h
      → (f : Follows o o.first (extract_ptr h) next) → (s.queue.nodes (extract_ptr next)).value ≡ v
      → extract_ptr w ≡ extract_ptr next
      → held (s.pc i) ≡ none
      → Result o s i (record s.queue { head = w }, Pc.deq_delete (extract_ptr h) v, Event.removed v)
  unfolding observe Knows slice
  advance-Result h w next v same f value word nothing =
      let here : o.first ≡ f.at =
        l.distinct o.first f.at l.head_le (omega (arith, f.inside))
          (sym l.head_at ∙ (ap extract_ptr same ∙ f.here)) in
      let there : extract_ptr next ≡ o.path (suc f.at) =
        ap extract_ptr f.there ∙ extract_ptr-pack_ptr _ 0 (l.small (suc f.at) f.inside) in
      let o' : Order = record o { first = suc f.at } in
      (
        o',
        moved-Inv o s i inv o' _ (Pc.deq_delete (extract_ptr h) v)
            (record {
              head_at = word ∙ there;
              tail_at = l.tail_at;
              head_le = f.inside;
              tail_le = l.tail_le;
              lag = l.lag;
              next_at = l.next_at;
              end_at = l.end_at;
              positive = l.positive;
              small = l.small;
              distinct = l.distinct;
              born = l.born;
              kept = λ k lo hi. l.kept k (omega arith) hi;
            })
            (record {
              last_le = omega arith;
              first_le = omega arith;
              end_le = omega arith;
              path_same = λ k h. refl;
              value_same = λ k h. refl;
            })
            (record {
              at = f.at;
              below = omega arith;
              here = f.here;
              live = ground (arith, f.here, l.kept f.at (omega arith) (omega (arith, f.inside)));
            })
            (λ a e.
              inr λ out. Outside.away out o.first (omega arith) l.head_le (ground (arith, f.here)))
            (λ j a ne h. record { node_same = refl; unlinked = λ k lo hi. absurd (omega arith) })
            (λ a alive. inr (
              alive,
              (λ p. elim (ℕ_discrete o.first p.at) [
                | yes first_one ↦ inr (ground (arith, f.here, p.here))
                | no later_one ↦
                    inl
                      (record { at = p.at; from = omega (arith, p.from); to = p.to; here = p.here })
              ]),
              λ h. absurd (cc),
            )),
        taken (value_at o s.queue) o.first (o.last - o.first) (o.last - suc f.at) v
              (omega (arith, f.inside)) (ground (arith, value, there))
            ∙ ap (λ k. some (slice (value_at o s.queue) (suc k) (o.last - suc f.at))) here,
      )

  -- A node that left the queue is deleted.
  pub delete-Result :
      (n v : ℕ)
      → held (s.pc i) ≡ some n
      → Left o s.queue n
      → Result o s i (delete n s.queue, Pc.deq_returned (some v), Event.silent)
  unfolding delete observe Knows
  delete-Result n v mine w =
      let ne : (k : ℕ) → o.first ≤ k → k ≤ o.last → o.path k ≢ n =
        λ k lo hi. ground (arith, w.here, w.below, l.distinct w.at k (omega (arith, w.below)) hi) in
      (
        o,
        moved-Inv o s i inv o _ (Pc.deq_returned (some v))
            (record {
              head_at = l.head_at;
              tail_at = l.tail_at;
              head_le = l.head_le;
              tail_le = l.tail_le;
              lag = l.lag;
              next_at = λ k h. ground (arith, l.next_at k h);
              end_at = ground (arith, l.end_at);
              positive = l.positive;
              small = l.small;
              distinct = l.distinct;
              born = λ k h. ground (arith, l.born k h);
              kept = λ k lo h. ground (arith, l.kept k lo h, ne k lo h);
            })
            (record {
              last_le = omega arith;
              first_le = omega arith;
              end_le = omega arith;
              path_same = λ k h. refl;
              value_same = λ k h. ground arith;
            })
            tt (λ a e. cc)
            (λ j a ij h. record {
              node_same = ground (arith, inv.apart i j n ij mine);
              unlinked = λ k lo hi. absurd (omega arith);
            })
            (λ a alive. inr (ground arith, inl, λ h. absurd (ground arith))),
        ap some (slice_ext _ _ _ _ (λ k lo hi. ground arith)),
      )

  -- The node that has no successor is the last one.
  pub is_last :
      (b p : ℕ) (pt : Points o b p) → b ≤ o.last → (s.queue.nodes p).next ≡ 0 → pt.at ≡ o.last
  is_last b p pt bound alone = elim (ℕ_discrete pt.at o.last) [
    | yes same ↦ same
    | no other ↦
        let inside : pt.at < o.last = omega (arith, pt.below) in
        let positive =
          pack_ptr_pos (o.path (suc pt.at)) 0 (l.positive _ inside) (l.small _ inside) in
        absurd (ground (arith, l.next_at pt.at inside, pt.here))
  ]

  -- A node is linked behind the last one, and its value is in the queue.
  pub link-Result :
      (v n t p : ℕ)
      → held (s.pc i) ≡ some n
      → Own o s.queue v n
      → Points o o.end p
      → extract_ptr t ≡ p
      → (s.queue.nodes p).next ≡ 0
      → Result o s i (set_next p (pack_ptr n 0) s.queue, Pc.enq_swing v n t, Event.added v)
  unfolding set_next observe Knows
  link-Result v n t p mine w pt ptr alone =
      let last_at : pt.at ≡ o.last = is_last o.end p pt l.tail_le alone in
      let o' : Order = record o { path = update o.path (suc o.last) n; last = suc o.last } in
      (
        o',
        moved-Inv o s i inv o' _ (Pc.enq_swing v n t)
            (record {
              head_at = ground (arith, l.head_at, l.head_le);
              tail_at = ground (arith, l.tail_at, l.tail_le);
              head_le = omega (arith, l.head_le);
              tail_le = omega (arith, l.tail_le);
              lag = omega (arith, pt.below, l.tail_le);
              next_at = λ k h. ground (arith, l.next_at k, l.distinct k o.last, w.away k);
              end_at = ground (arith, w.alone, w.away o.last);
              positive = λ k h. ground (arith, l.positive k, w.positive);
              small = λ k h. ground (arith, l.small k, w.small);
              distinct = λ j k h h'. ground (arith, l.distinct j k, w.away j, w.away k);
              born = λ k h. ground (arith, l.born k, w.live);
              kept = λ k lo h. ground (arith, l.kept k, w.live);
            })
            (record {
              last_le = omega arith;
              first_le = omega arith;
              end_le = omega arith;
              path_same = λ k h. ground arith;
              value_same = λ k h. ground arith;
            })
            (record {
              at = o.last;
              inside = omega arith;
              here = ground (arith, pt.here);
              there = ground arith;
            })
            (λ a e. cc)
            (λ j a ij h. record {
              node_same =
                  ground (arith, Outside.away (outside j a h) o.last l.head_le (omega arith));
              unlinked = λ k lo hi. ground (arith, inv.apart i j n ij mine);
            })
            (λ a alive. inr (
              ground arith,
              (λ p. inl (record {
                at = p.at;
                from = p.from;
                to = omega (arith, p.to);
                here = ground (arith, p.to, p.here);
              })),
              λ h. inl (record {
                at = suc o.last;
                from = omega (arith, l.head_le);
                to = omega arith;
                here = ground arith;
              }),
            )),
        put_behind (value_at o s.queue) _ o.first (o.last - o.first) (suc o.last - o.first) v
            (omega (arith, l.head_le)) (λ k lo hi. ground (arith, l.head_le))
            (ground (arith, l.head_le, w.away o.last, w.holds_value)),
      )
