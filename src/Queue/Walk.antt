-- ===== src/Queue/Walk.antt =====
-- `toString` and the destructor of cs636/assignment2/problem2/241110079.h, which walk the nodes.
use mtech.Prelude.{
  ℕ, zero, suc, ◌+◌, ◌-◌, ◌%◌, ◌≤◌, ◌<◌, ◌≡◌, ◌≢◌, ◌∙◌, refl, ap, some, none, arith, ◌==◌,
  if◌then◌else◌, ◌>>=◌, Option, List, [], ◌∷◌, length, subst, inl, inr, ℕ_discrete,
}
use mtech.Queue.Word.{extract_ptr, extract_tag, extract_ptr-pack_ptr, pointers, tags}
use mtech.Queue.State.{Life, Queue, Pc, Event}
use mtech.Queue.Move.{read, delete}
use mtech.Queue.System.{System, Reach, NeverReuses, replay}
use mtech.Queue.Invariant.{Order, Linked, contents, value_at, slice}
use mtech.Queue.Linear.{reach-Inv}
use mtech.Queue.Tags.{removals, reach-IsCount}

-- What `toString` prints: a value, or the space between two.
pub data Token : Type 0 where
  number : ℕ → Token
  space : Token

-- The loop of `toString` from `node` on, with a bound on its turns.
unfoldable pub to_string_loop : ℕ → Queue → ℕ → Option (List Token)
to_string_loop zero q node = none
to_string_loop (suc turns) q node =
    let turn = (do
      n ← read q node
      rest ← to_string_loop turns q (extract_ptr n.next)
      some (number n.value ∷ (if extract_ptr n.next == 0 then rest else space ∷ rest))) in
    if node == 0 then some [] else turn

unfoldable pub to_string : ℕ → Queue → Option (List Token)
to_string turns q = do
  dummy ← read q (extract_ptr q.head)
  to_string_loop turns q (extract_ptr dummy.next)

-- The loop of the destructor.
unfoldable pub destroy_loop : ℕ → Queue → ℕ → Option Queue
destroy_loop zero q current = none
destroy_loop (suc turns) q current =
    let turn = (do
      n ← read q current
      destroy_loop turns (delete current q) (extract_ptr n.next)) in
    if current == 0 then some q else turn

unfoldable pub destroy : ℕ → Queue → Option Queue
destroy turns q = destroy_loop turns q (extract_ptr q.head)

-- Values with a space between them.
unfoldable pub spaced : List ℕ → List Token
spaced [] = []
spaced (x ∷ []) = number x ∷ []
spaced (x ∷ y ∷ xs) = number x ∷ space ∷ spaced (y ∷ xs)

module _ (o : Order) (q : Queue) (l : Linked o q) where
  next_of : (k : ℕ) → k < o.last → extract_ptr (q.nodes (o.path k)).next ≡ o.path (suc k)
  next_of k h = ap extract_ptr (l.next_at k h) ∙ extract_ptr-pack_ptr _ 0 (l.small (suc k) h)

  next_of_last : extract_ptr (q.nodes (o.path o.last)).next ≡ 0
  unfolding extract_ptr
  next_of_last = rw l.end_at

  to_string_loop-slice :
      (n k : ℕ)
      → o.first ≤ k
      → k + n ≡ o.last
      → (turns : ℕ) → n < turns
      → to_string_loop turns q (extract_ptr (q.nodes (o.path k)).next)
        ≡ some (spaced (slice (value_at o q) k n))
  unfolding to_string_loop spaced slice read
  to_string_loop-slice n k lo e zero h = absurd (omega arith)
  to_string_loop-slice zero k lo e (suc turns) h =
      let here : k ≡ o.last = omega arith in
      let null = ap (λ j. extract_ptr (q.nodes (o.path j)).next) here ∙ next_of_last in rw null
  to_string_loop-slice (suc zero) k lo e (suc turns) h =
      let rest =
        to_string_loop-slice zero (suc k) (omega arith) (omega arith) turns (omega arith) in
      let here : suc k ≡ o.last = omega arith in
      let null = ap (λ j. extract_ptr (q.nodes (o.path j)).next) here ∙ next_of_last in
      rw (next_of k (omega arith)) (ground (arith, l.positive (suc k), l.kept (suc k)))
  to_string_loop-slice (suc (suc n)) k lo e (suc turns) h =
      let rest =
        to_string_loop-slice (suc n) (suc k) (omega arith) (omega arith) turns (omega arith) in
      let after = next_of (suc k) (omega arith) in
      rw (next_of k (omega arith))
        (ground (arith, l.positive (suc k), l.positive (suc (suc k)), l.kept (suc k)))

  pub to_string-contents :
      (turns : ℕ) → o.last - o.first < turns → to_string turns q ≡ some (spaced (contents o q))
  unfolding to_string read
  to_string-contents turns h =
      let rest =
        to_string_loop-slice (o.last - o.first) o.first (omega arith) (omega (arith, l.head_le))
          turns h in
      rw l.head_at (ground (arith, l.kept o.first (omega arith) l.head_le))

  -- The destructor from position `k` on, in a queue whose nodes from there on are as before.
  destroy_loop-from :
      (n k : ℕ) (p : Queue) (turns : ℕ)
      → o.first ≤ k
      → k + n ≡ o.last
      → ((j : ℕ) → k ≤ j → j ≤ o.last → p.nodes (o.path j) ≡ q.nodes (o.path j))
      → suc n < turns
      → (r : Queue) × (destroy_loop turns p (o.path k) ≡ some r)
        × ((j : ℕ) → k ≤ j → j ≤ o.last → (r.nodes (o.path j)).life ≡ Life.freed)
        × ((a : ℕ) → ((j : ℕ) → k ≤ j → j ≤ o.last → o.path j ≢ a) → r.nodes a ≡ p.nodes a)
        × ((a : ℕ) → (r.nodes a).life ≡ Life.live → (p.nodes a).life ≡ Life.live)
  unfolding destroy_loop delete read
  destroy_loop-from n k p zero lo e same h = absurd (omega arith)
  destroy_loop-from n k p (suc zero) lo e same h = absurd (omega arith)
  destroy_loop-from zero k p (suc (suc turns)) lo e same h =
      let here : k ≡ o.last = omega arith in
      let null = ap (λ j. extract_ptr (q.nodes (o.path j)).next) here ∙ next_of_last in
      let inside : k ≤ o.last = omega arith in
      (
        delete (o.path k) p,
        ground (arith, l.positive k, l.kept k, same k),
        (λ j from to. let at : j ≡ k = omega arith in ground arith),
        (λ a away. ground (arith, away k)),
        (λ a alive. ground arith),
      )
  destroy_loop-from (suc n) k p (suc turns) lo e same h =
      let (r, run, freed, others, living) =
        destroy_loop-from n (suc k) (delete (o.path k) p) turns (omega arith) (omega arith)
          (λ j from to. ground (arith, same j, l.distinct j k)) (omega arith) in
      let inside : k < o.last = omega arith in
      let after = next_of k inside in
      (
        r,
        ground (arith, l.positive k, l.kept k, same k),
        (λ j from to. elim (ℕ_discrete k j) [
          | yes at ↦ ground (arith, others (o.path k) (λ i b c. ground (arith, l.distinct i k)))
          | no later ↦ freed j (omega arith) to
        ]),
        (λ a away. others a (λ j b c. away j (omega arith) c) ∙ ground (arith, away k)),
        (λ a alive. ground (arith, living a)),
      )

length-slice : (f : ℕ → ℕ) (a n : ℕ) → length (slice f a n) ≡ n
unfolding slice
length-slice f a zero = refl
length-slice f a (suc n) = ap suc (length-slice f (suc a) n)

module _ (dummy : ℕ) (positive : 0 < dummy) (small : dummy < pointers) (events : List Event)
    (s : System) (run : Reach dummy events s) (never : NeverReuses run) where
  -- Whatever the threads do, in a run in which none accesses a freed node and `new` gives no address
  -- again that was given back (`NeverReuses`): what they put in the queue and took from it, and saw
  -- of it, is a run of a list with the oldest value first; `toString` prints what is in the list at
  -- the end, with one turn more than it has values; and the tag of the head is the number of the
  -- values taken, modulo 2 ^ 16.
  pub reach-to_string :
      (xs : List ℕ) × (replay events ≡ some xs)
      × ((turns : ℕ) → length xs < turns → to_string turns s.queue ≡ some (spaced xs))
      × (extract_tag s.queue.head ≡ removals events % tags)
  reach-to_string =
      let (o, inv, seen) = reach-Inv dummy events s positive small run never in
      (
        _,
        seen,
        (λ turns h.
            to_string-contents o s.queue inv.linked turns
              (subst (λ n. n < turns) (length-slice _ o.first (o.last - o.first)) h)),
        reach-IsCount run,
      )

  -- In a run in which `new` gives no address again that was given back, when no thread is in a call,
  -- the destructor accesses no freed node, and gives back every node
  -- that was made and not deleted.
  pub reach-destroy :
      ((i : ℕ) → s.pc i ≡ Pc.idle)
      → (xs : List ℕ) × (replay events ≡ some xs)
        × ((turns : ℕ)
            → suc (length xs) < turns
            → (q : Queue) × (destroy turns s.queue ≡ some q)
              × ((a : ℕ) → (q.nodes a).life ≢ Life.live))
  unfolding destroy
  reach-destroy outside =
      let (o, inv, seen) = reach-Inv dummy events s positive small run never in
      let l = inv.linked in
      let count = length-slice (value_at o s.queue) o.first (o.last - o.first) in
      (
        _,
        seen,
        λ turns h.
            let (q, done, freed, others, living) =
              destroy_loop-from o s.queue l (o.last - o.first) o.first s.queue turns (omega arith)
                (omega (arith, l.head_le)) (λ j from to. refl)
                (subst (λ n. suc n < turns) count h) in
            (
              q,
              rw l.head_at done,
              λ a alive. elim (inv.accounted a (living a alive)) [
                | inl place ↦ ground (arith, freed place.at place.from place.to, place.here)
                | inr (i, h') ↦ absurd (ground (arith, outside i))
              ],
            ),
      )
