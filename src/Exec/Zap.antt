-- ===== src/Exec/Zap.antt =====
-- What `zap_other_threads` counts and what it leaves alone.
use mtech.Prelude.{
  ℕ, zero, suc, ◌+◌, ◌≡◌, refl, Bool, not, ◌&&◌, ◌==◌, ltb, if◌then◌else◌, arith, dec_lt,
}
use mtech.Prelude.Family.{total}
use mtech.Exec.State.{Task, is_hashed}
use mtech.Exec.Dethread.{zap_task, zap_counts, zap_from}
use mtech.Exec.Members.{weight, members}

-- What does not change when a thread is zapped.
pub record SameLife (t t' : Task) : Type 0 where
  pub progress : t'.progress ≡ t.progress
  pub group_leader : t'.group_leader ≡ t.group_leader
  pub exit_state : t'.exit_state ≡ t.exit_state
  pub exiting : t'.exiting ≡ t.exiting
  pub ptraced : t'.ptraced ≡ t.ptraced

zap_task-SameLife : (t : Task) → SameLife t (zap_task t)
unfolding zap_task
zap_task-SameLife t = record {
  progress = refl;
  group_leader = refl;
  exit_state = refl;
  exiting = refl;
  ptraced = refl;
}

pub zap_from-SameLife :
    (opt : Bool) (p k : ℕ) (tasks : ℕ → Task) (j : ℕ)
    → SameLife (tasks j) ((zap_from opt p k tasks).0 j)
unfolding zap_from
zap_from-SameLife opt p zero tasks j = record {
  progress = refl;
  group_leader = refl;
  exit_state = refl;
  exiting = refl;
  ptraced = refl;
}
zap_from-SameLife opt p (suc k) tasks j =
    let r = zap_from-SameLife opt p k tasks j in
    let z = zap_task-SameLife (tasks k) in
    record {
      progress = ground (arith, r.progress, z.progress);
      group_leader = ground (arith, r.group_leader, z.group_leader);
      exit_state = ground (arith, r.exit_state, z.exit_state);
      exiting = ground (arith, r.exiting, z.exiting);
      ptraced = ground (arith, r.ptraced, z.ptraced);
    }

-- A thread that the loop counts.
abbrev pub counted : Bool → Task → Bool
counted opt t = is_hashed t.progress && zap_counts opt t

zap_weight : Bool → ℕ → ℕ → Task → ℕ
zap_weight opt p i t = if not (p == i) && counted opt t then 1 else 0

zap_from-total :
    (opt : Bool) (p k : ℕ) (tasks : ℕ → Task)
    → (zap_from opt p k tasks).1 ≡ total (zap_weight opt p) k tasks
unfolding zap_from total zap_weight
zap_from-total opt p zero tasks = refl
zap_from-total opt p (suc k) tasks = ground (arith, zap_from-total opt p k tasks)

-- The leader's share of the count, when it is another thread.
abbrev pub leader_share : (Task → Bool) → ℕ → ℕ → ℕ → (ℕ → Task) → ℕ
leader_share counts e l k tasks = if not (e == l) && (ltb l k && counts (tasks l)) then 1 else 0

total-split :
    (opt : Bool) (e l k : ℕ) (tasks : ℕ → Task)
    → total (zap_weight opt e) k tasks
      ≡ total (weight (counted opt) e l) k tasks + leader_share (counted opt) e l k tasks
unfolding total zap_weight
total-split opt e l zero tasks = ground arith
total-split opt e l (suc k) tasks = elim (dec_lt k l) [
  | yes below ↦ ground (arith, total-split opt e l k tasks)
  | no above ↦ ground (arith, total-split opt e l k tasks)
]

-- The count is the number of the threads that `de_thread` waits for, and one for the leader.
pub zap_from-members :
    (opt : Bool) (e l k : ℕ) (tasks : ℕ → Task)
    → (zap_from opt e k tasks).1
      ≡ members (counted opt) e l k tasks + leader_share (counted opt) e l k tasks
unfolding members
zap_from-members opt e l k tasks =
    omega (arith, zap_from-total opt e k tasks, total-split opt e l k tasks)
