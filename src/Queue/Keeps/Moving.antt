-- ===== src/Queue/Keeps/Moving.antt =====
-- The accesses of cs636/assignment2/problem2/241110079.h that change the queue: `new` and the tail.
use mtech.Prelude.{
  ℕ, suc, ◌≤◌, ◌≡◌, ◌≢◌, ◌∙◌, inl, inr, refl, ap, sym, some, none, arith, ℕ_discrete,
}
use mtech.Queue.Word.{extract_ptr}
use mtech.Queue.State.{Pc, Event}
use mtech.Queue.Move.{allocate}
use mtech.Queue.System.{System, IsFresh, observe}
use mtech.Queue.Invariant.{Order, Linked, Precedes, Knows, held, Inv, slice_ext}
use mtech.Queue.Keeps.{Result, Outside, held-Outside, moved-Inv}

module _ (o : Order) (s : System) (i : ℕ) (inv : Inv o s) where
  abbrev l : Linked o s.queue
  l = inv.linked

  pub outside : (j a : ℕ) → held (s.pc j) ≡ some a → Outside o s.queue a
  outside j a h = held-Outside o s.queue l (s.pc j) a h (inv.knows j)

  -- A new node at an address that was never given.
  pub allocate-Result :
      (v a : ℕ)
      → IsFresh a s.queue.nodes
      → held (s.pc i) ≡ none
      → Result o s i (allocate a v s.queue, Pc.enq_loop v a, Event.silent)
  unfolding allocate observe Knows
  allocate-Result v a fresh nothing =
      let ne : (k : ℕ) → k ≤ o.last → o.path k ≢ a =
        λ k h. ground (arith, l.born k h, fresh.unused) in
      (
        o,
        moved-Inv o s i inv o _ (Pc.enq_loop v a)
            (record {
              head_at = l.head_at;
              tail_at = l.tail_at;
              head_le = l.head_le;
              tail_le = l.tail_le;
              lag = l.lag;
              next_at = λ k h. ground (arith, l.next_at k h, ne k);
              end_at = ground (arith, l.end_at, ne o.last);
              positive = l.positive;
              small = l.small;
              distinct = l.distinct;
              born = λ k h. ground (arith, l.born k h, ne k h);
              kept = λ k lo h. ground (arith, l.kept k lo h, ne k h);
            })
            (record {
              last_le = omega arith;
              first_le = omega arith;
              end_le = omega arith;
              path_same = λ k h. refl;
              value_same = λ k h. ground (arith, ne k h);
            })
            (record {
              live = ground arith;
              alone = ground arith;
              holds_value = ground arith;
              positive = fresh.not_null;
              small = fresh.small;
              away = ne;
            })
            (λ b h. inr λ out. ground (arith, fresh.unused, Outside.live out))
            (λ j b ij h. record {
              node_same = ground (arith, Outside.live (outside j b h), fresh.unused);
              unlinked = λ k lo hi. absurd (omega arith);
            })
            (λ b alive. elim (ℕ_discrete a b) [
              | yes here ↦ inl (inr (ground arith))
              | no other ↦ inr (ground arith, inl, λ h. absurd (cc))
            ]),
        ap some (slice_ext _ _ _ _ (λ k lo hi. ground (arith, ne k (omega (arith, l.head_le))))),
      )

  -- The tail moves to the successor of the node that it points to.
  pub tail-Result :
      (t w : ℕ) (p' : Pc)
      → s.queue.tail ≡ t
      → (f : Precedes o (extract_ptr t) (extract_ptr w))
      → ((x : Order)
          → x.path ≡ o.path
          → x.last ≡ o.last
          → x.first ≡ o.first
          → o.end ≤ x.end
          → Knows x (record s.queue { tail = w }) p')
      → held p' ≡ held (s.pc i)
      → Result o s i (record s.queue { tail = w }, p', Event.silent)
  unfolding observe
  tail-Result t w p' same f knows own =
      let here : o.end ≡ f.at =
        l.distinct o.end f.at l.tail_le (omega (arith, f.inside))
          (sym l.tail_at ∙ (ap extract_ptr same ∙ f.here)) in
      (
        record o { end = suc f.at },
        moved-Inv o s i inv (record o { end = suc f.at }) _ p'
            (record {
              head_at = l.head_at;
              tail_at = f.there;
              head_le = l.head_le;
              tail_le = f.inside;
              lag = omega (arith, l.lag);
              next_at = l.next_at;
              end_at = l.end_at;
              positive = l.positive;
              small = l.small;
              distinct = l.distinct;
              born = l.born;
              kept = l.kept;
            })
            (record {
              last_le = omega arith;
              first_le = omega arith;
              end_le = omega arith;
              path_same = λ k h. refl;
              value_same = λ k h. refl;
            })
            (knows _ refl refl refl (omega arith)) (λ a h. inl (cc))
            (λ j a ne h. record { node_same = refl; unlinked = λ k lo hi. absurd (omega arith) })
            (λ a alive. inr (
              alive,
              (λ p. inl (record { at = p.at; from = p.from; to = p.to; here = p.here })),
              λ h. inr (cc),
            )),
        refl,
      )
