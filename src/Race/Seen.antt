-- ===== src/Race/Seen.antt =====
-- What a thread or a lock knows of: how many accesses of each thread come before, by the order that
-- the synchronisation of the trace gives. The numbers are kept beside the detector, which does not
-- have them.
use mtech.Prelude.{
  ℕ, zero, suc, Bool, false, ◌||◌, Option, none, some, if◌then◌else◌, List, [], ◌∷◌,
}
use mtech.Prelude.Family.{update}
use mtech.Race.Clocks.{
  thread, lock, VectorClocks, unite, tick, TraceInfo, Line, before_create, thread_begin,
  thread_ended, access, lock_release, lock_acquire, other_line,
}
use mtech.Race.Djit.{
  State, TimeFrame, any, unseen_write, unseen_read, read_byte, write_byte, djit_line,
}

-- How many accesses of a thread a holder knows of, and the number of the last access that the history
-- has of a thread at a location, 0 for none.
pub record Account : Type 0 where
  pub seen : VectorClocks
  pub reads : ℕ → ℕ → ℕ
  pub writes : ℕ → ℕ → ℕ

unfoldable pub no_account : Account
no_account = record { seen = λ h i. 0; reads = λ v u. 0; writes = λ v u. 0 }

abbrev pub enter : ℕ → ℕ → ℕ → (ℕ → ℕ → ℕ) → ℕ → ℕ → ℕ
enter v u number numbers = update numbers v (update (numbers v) u number)

-- Whether the detector keeps the access: it does where it finds no race.
abbrev pub finds_read : ℕ → ℕ → State → Option (ℕ → TimeFrame) → Bool
finds_read n t s none = false
finds_read n t s (some frames) = any n (unseen_write s.clocks frames t)

abbrev pub finds_write : ℕ → ℕ → State → Option (ℕ → TimeFrame) → Bool
finds_write n t s none = false
finds_write n t s (some frames) =
    any n (λ u. unseen_write s.clocks frames t u || unseen_read s.clocks frames t u)

-- The account after a byte of a read or of a write, which is one access.
unfoldable pub count_read : ℕ → ℕ → ℕ → State → Account → Account
unfolding tick
count_read n t v s g = record g {
  seen = tick t g.seen;
  reads =
      if finds_read n t s (s.history v)
      then g.reads
      else enter v t (suc (g.seen (thread t) t)) g.reads;
}

unfoldable pub count_write : ℕ → ℕ → ℕ → State → Account → Account
unfolding tick
count_write n t v s g = record g {
  seen = tick t g.seen;
  writes =
      if finds_write n t s (s.history v)
      then g.writes
      else enter v t (suc (g.seen (thread t) t)) g.writes;
}

-- The bytes of an access, one after the other.
unfoldable pub count_bytes :
    (ℕ → State → State) → (ℕ → State → Account → Account) → ℕ → ℕ → State → Account → Account
count_bytes byte count zero v s g = g
count_bytes byte count (suc size) v s g =
    count_bytes byte count size (suc v) (byte v s) (count v s g)

unfoldable pub count_access : ℕ → (ℕ → Bool) → TraceInfo → State → Account → Account
unfolding count_bytes read_byte write_byte count_read count_write
count_access n is_lock ti s g =
    let read = count_bytes (read_byte n ti.t) (count_read n ti.t) ti.size ti.address s g in
    let written = count_bytes (write_byte n ti.t) (count_write n ti.t) ti.size ti.address s g in
    if is_lock ti.address then g else (if ti.is_read then read else written)

unfoldable pub count_line : ℕ → (ℕ → Bool) → Line → State → Account → Account
unfolding unite count_access
count_line n is_lock (before_create parent) s g = g
count_line n is_lock (thread_begin forked) s g = elim s.parents [
  | [] ↦ g
  | t ∷ rest ↦ record g { seen = unite n (thread forked) (thread t) g.seen }
]
count_line n is_lock (thread_ended joined) s g = elim s.parents [
  | [] ↦ g
  | t ∷ rest ↦ record g { seen = unite n (thread t) (thread joined) g.seen }
]
count_line n is_lock (access ti) s g = count_access n is_lock ti s g
count_line n is_lock (lock_release t l) s g = record g { seen = unite n (lock l) (thread t) g.seen }
count_line n is_lock (lock_acquire t l) s g = record g { seen = unite n (thread t) (lock l) g.seen }
count_line n is_lock other_line s g = g

unfoldable pub count_all : ℕ → (ℕ → Bool) → List Line → State → Account → Account
unfolding count_line djit_line
count_all n is_lock [] s g = g
count_all n is_lock (line ∷ lines) s g =
    count_all n is_lock lines (djit_line n is_lock line s) (count_line n is_lock line s g)
