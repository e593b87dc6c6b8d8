-- ===== src/Queue/Invariant.antt =====
-- What holds between the accesses of any number of threads to the queue of
-- cs636/assignment2/problem2/241110079.h, by the order in which its nodes were linked.
use mtech.Prelude.{
  ℕ, zero, suc, ◌+◌, ◌-◌, ◌≤◌, ◌<◌, ◌≡◌, ◌≢◌, ◌⊎◌, refl, Option, none, some, List, [], ◌∷◌, ◌++◌,
  ap, ◌∙◌, arith,
}
use mtech.Queue.Word.{pointers, extract_ptr, pack_ptr}
use mtech.Queue.State.{Life, Queue, Pc}
use mtech.Queue.System.{System}

-- The node linked at each position, the last position, and those of the head and of the tail.
pub record Order : Type 0 where
  pub path : ℕ → ℕ
  pub last : ℕ
  pub first : ℕ
  pub end : ℕ

pub record Linked (o : Order) (q : Queue) : Type 0 where
  pub head_at : extract_ptr q.head ≡ o.path o.first
  pub tail_at : extract_ptr q.tail ≡ o.path o.end
  pub head_le : o.first ≤ o.last
  pub tail_le : o.end ≤ o.last
  pub lag : o.last ≤ suc o.end
  pub next_at : (k : ℕ) → k < o.last → (q.nodes (o.path k)).next ≡ pack_ptr (o.path (suc k)) 0
  pub end_at : (q.nodes (o.path o.last)).next ≡ 0
  pub positive : (k : ℕ) → k ≤ o.last → 0 < o.path k
  pub small : (k : ℕ) → k ≤ o.last → o.path k < pointers
  pub distinct : (j k : ℕ) → j ≤ o.last → k ≤ o.last → o.path j ≡ o.path k → j ≡ k
  pub born : (k : ℕ) → k ≤ o.last → (q.nodes (o.path k)).life ≢ Life.unused
  pub kept : (k : ℕ) → o.first ≤ k → k ≤ o.last → (q.nodes (o.path k)).life ≡ Life.live

-- A node that a thread of `enq` has made and not linked.
pub record Own (o : Order) (q : Queue) (v n : ℕ) : Type 0 where
  pub live : (q.nodes n).life ≡ Life.live
  pub alone : (q.nodes n).next ≡ 0
  pub holds_value : (q.nodes n).value ≡ v
  pub positive : 0 < n
  pub small : n < pointers
  pub away : (k : ℕ) → k ≤ o.last → o.path k ≢ n

-- A pointer to the node at a position up to `bound`.
pub record Points (o : Order) (bound p : ℕ) : Type 0 where
  pub at : ℕ
  pub below : at ≤ bound
  pub here : p ≡ o.path at

-- A pointer to the node at a position, and the word of its successor.
pub record Follows (o : Order) (bound p next : ℕ) : Type 0 where
  pub at : ℕ
  pub below : at ≤ bound
  pub inside : at < o.last
  pub here : p ≡ o.path at
  pub there : next ≡ pack_ptr (o.path (suc at)) 0

-- A node behind which another one is linked.
pub record Precedes (o : Order) (p n : ℕ) : Type 0 where
  pub at : ℕ
  pub inside : at < o.last
  pub here : p ≡ o.path at
  pub there : n ≡ o.path (suc at)

-- A node that left the queue, to be deleted.
pub record Left (o : Order) (q : Queue) (n : ℕ) : Type 0 where
  pub at : ℕ
  pub below : at < o.first
  pub here : n ≡ o.path at
  pub live : (q.nodes n).life ≡ Life.live

-- What a thread knows.
unfoldable pub Knows : Order → Queue → Pc → Type 0
Knows o q (Pc.enq_loop v n) = Own o q v n
Knows o q (Pc.enq_loaded v n t) = Own o q v n × Points o o.end (extract_ptr t)
Knows o q (Pc.enq_help v n t next) = Own o q v n × Follows o o.end (extract_ptr t) next
Knows o q (Pc.enq_link v n t) = Own o q v n × Points o o.end (extract_ptr t)
Knows o q (Pc.enq_swing v n t) = Precedes o (extract_ptr t) n
Knows o q (Pc.deq_loaded h) = Points o o.first (extract_ptr h)
Knows o q (Pc.deq_next h next) = Follows o o.first (extract_ptr h) next
Knows o q (Pc.deq_value h next v) =
    Follows o o.first (extract_ptr h) next × ((q.nodes (extract_ptr next)).value ≡ v)
Knows o q (Pc.deq_delete n v) = Left o q n
Knows o q _ = Unit {0}

-- The node that no other thread may have.
abbrev pub held : Pc → Option ℕ
held (Pc.enq_loop v n) = some n
held (Pc.enq_loaded v n t) = some n
held (Pc.enq_help v n t next) = some n
held (Pc.enq_link v n t) = some n
held (Pc.deq_delete n v) = some n
held _ = none

-- The values behind position `a`, `n` of them.
unfoldable pub slice : (ℕ → ℕ) → ℕ → ℕ → List ℕ
slice f a zero = []
slice f a (suc n) = f (suc a) ∷ slice f (suc a) n

abbrev pub value_at : Order → Queue → ℕ → ℕ
value_at o q k = (q.nodes (o.path k)).value

abbrev pub contents : Order → Queue → List ℕ
contents o q = slice (value_at o q) o.first (o.last - o.first)

-- The node at a position from the head on.
pub record InQueue (o : Order) (a : ℕ) : Type 0 where
  pub at : ℕ
  pub from : o.first ≤ at
  pub to : at ≤ o.last
  pub here : o.path at ≡ a

pub record Inv (o : Order) (s : System) : Type 0 where
  pub linked : Linked o s.queue
  pub knows : (i : ℕ) → Knows o s.queue (s.pc i)
  pub apart : (i j a : ℕ) → i ≢ j → held (s.pc i) ≡ some a → held (s.pc j) ≢ some a
  pub accounted :
      (a : ℕ)
      → (s.queue.nodes a).life ≡ Life.live
      → InQueue o a ⊎ ((i : ℕ) × (held (s.pc i) ≡ some a))

pub slice_ext :
    (f g : ℕ → ℕ) (a n : ℕ) → ((k : ℕ) → a < k → k ≤ a + n → f k ≡ g k) → slice f a n ≡ slice g a n
unfolding slice
slice_ext f g a zero same = refl
slice_ext f g a (suc n) same = ground (
  arith,
  same (suc a) (omega arith) (omega arith),
  slice_ext f g (suc a) n (λ k l h. same k (omega arith) (omega arith)),
)

pub slice_snoc : (f : ℕ → ℕ) (a n : ℕ) → slice f a (suc n) ≡ slice f a n ++ f (suc a + n) ∷ []
unfolding slice
slice_snoc f a zero = ap (λ k. f k ∷ []) (omega arith)
slice_snoc f a (suc n) =
    let e : suc (suc a) + n ≡ suc a + suc n = omega arith in
    ap (λ xs. f (suc a) ∷ xs) (slice_snoc f (suc a) n)
    ∙ ap (λ k. f (suc a) ∷ (slice f (suc a) n ++ f k ∷ [])) e
