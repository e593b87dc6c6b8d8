-- ===== src/Queue/Solo.antt =====
-- A call of `enq` or `deq` of cs636/assignment2/problem2/241110079.h that runs alone, wherever the
-- other threads stopped.
pub mod Deq
pub mod Enq
pub mod Returns
use mtech.Prelude.{
  ℕ, zero, suc, ◌+◌, ◌-◌, ◌≤◌, ◌<◌, ◌≡◌, ◌≢◌, ◌∙◌, ◌⊎◌, inl, inr, refl, ap, sym, subst, some, none,
  arith, ℕ_discrete, ◌==◌, if◌then◌else◌, ◌>>=◌, Option, List, [], ◌∷◌, ◌++◌, Bool, true, false,
  Bool-cases,
}
use mtech.Queue.Word.{extract_ptr, pack_ptr, next_tag, extract_ptr-pack_ptr, pack_ptr_pos, pointers}
use mtech.Queue.State.{Life, is_live, Node, Queue, new_node, Pc, Event}
use mtech.Queue.Move.{
  Moved, move, read, exchanges, enq_test, help, link, swing, deq_test, advance, allocate, set_next,
  delete,
}
use mtech.Queue.System.{System, Reach, IsFresh, observe, replay}
use mtech.Queue.Invariant.{Order, Linked, Knows, Inv, contents, value_at, slice}
use mtech.Queue.Linear.{reach-Inv}

abbrev pub is_back : Pc → Bool
is_back (Pc.enq_returned v) = true
is_back (Pc.deq_returned answer) = true
is_back _ = false

-- The steps of one thread, up to `turns` of them, until it returns; its events, the latest first.
unfoldable pub alone : ℕ → ℕ → List Event → Queue → Pc → Option (Queue × Pc × List Event)
alone zero a events q p = if is_back p then some (q, p, events) else none
alone (suc turns) a events q p =
    let on = move false a q p >>= λ (q', p', event). alone turns a (event ∷ events) q' p' in
    if is_back p then some (q, p, events) else on

module _ (a : ℕ) where
  pub step :
      (turns : ℕ) (events : List Event) (q : Queue) (p : Pc) (q' : Queue) (p' : Pc) (event : Event)
      → is_back p ≡ false
      → move false a q p ≡ some (q', p', event)
      → alone (suc turns) a events q p ≡ alone turns a (event ∷ events) q' p'
  unfolding alone
  step turns events q p q' p' event out e = rw (out, e) refl

  pub back :
      (turns : ℕ) (events : List Event) (q : Queue) (p : Pc)
      → is_back p ≡ true
      → alone turns a events q p ≡ some (q, p, events)
  unfolding alone
  back zero events q p out = rw out refl
  back (suc turns) events q p out = rw out refl
