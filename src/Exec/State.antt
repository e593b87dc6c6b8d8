-- ===== src/Exec/State.antt =====
-- A thread group: what de_thread, zap_other_threads and do_exit read and write of it.
use mtech.Prelude.{
  ℕ, zero, suc, Bool, true, false, Option, none, some, not, ◌&&◌, ◌==◌, if◌then◌else◌,
}
use mtech.Prelude.Int.{ℤ, pos, negsuc}
use mtech.Prelude.Family.{update}

-- `exit_state`: 0, EXIT_ZOMBIE, EXIT_DEAD.
pub data ExitState : Type 0 where
  alive zombie dead : ExitState

-- How far a thread is in `do_exit`: before it, in the `schedule` of the early wake-up, behind it, past `exit_signals`, past
-- `exit_notify`, and past `release_task`, which takes it out of the group.
pub data Progress : Type 0 where
  running parked entered flagged notified released : Progress

-- `struct task_struct`; `exiting` is PF_EXITING in `flags`, `sigkill` is SIGKILL in `pending`.
pub record Task : Type 0 where
  pub pid : ℕ
  pub exiting : Bool
  pub exit_state : ExitState
  pub sigkill : Bool
  pub jobctl_pending : Bool
  pub exit_signal : ℤ
  pub group_leader : ℕ
  pub start_time : ℕ
  pub ptraced : Bool
  pub progress : Progress

-- Where the thread that calls exec is in `de_thread`: at the test of `notify_count`, in the
-- `schedule` behind it, at the test of the leader, in the `schedule` behind that, or out of it.
pub data Waiter : Type 0 where
  testing sleeping leader_testing leader_sleeping taken_over finished killed : Waiter

-- The signal_struct of the group, its threads by number, the globals of the project, and `woken`,
-- whether the exec thread was woken since it last set its state to TASK_KILLABLE.
pub record Group : Type 0 where
  pub tasks : ℕ → Task
  pub size : ℕ
  pub leader : ℕ
  pub tgid : ℕ
  pub notify_count : ℤ
  pub group_exec_task : Option ℕ
  pub group_exit : Bool
  pub group_stop_count : ℕ
  pub optimization_on : Bool
  pub tracked_pid : ℤ
  pub waiter : Waiter
  pub woken : Bool

abbrev pub set_task : ℕ → Task → Group → Group
set_task i t g = record g { tasks = update g.tasks i t }

-- `--n`
abbrev pub decrement : ℤ → ℤ
decrement (pos (suc n)) = pos n
decrement (pos zero) = negsuc 0
decrement (negsuc n) = negsuc (suc n)

abbrev pub is_positive : ℤ → Bool
is_positive (pos (suc n)) = true
is_positive _ = false

abbrev pub is_negative : ℤ → Bool
is_negative (negsuc n) = true
is_negative _ = false

abbrev pub is_zero : ℤ → Bool
is_zero (pos zero) = true
is_zero _ = false

abbrev pub is_alive : ExitState → Bool
is_alive alive = true
is_alive _ = false

abbrev pub is_zombie : ExitState → Bool
is_zombie zombie = true
is_zombie _ = false

-- The thread is in the thread list of the group.
abbrev pub is_hashed : Progress → Bool
is_hashed released = false
is_hashed _ = true

-- The thread has not come to the early wake-up.
abbrev pub is_running : Progress → Bool
is_running running = true
is_running _ = false

-- The thread is past `exit_notify`.
abbrev pub is_past_notify : Progress → Bool
is_past_notify notified = true
is_past_notify released = true
is_past_notify _ = false

-- Of the first `k` threads, one other than `i` is in the group.
unfoldable pub others_hashed : ℕ → ℕ → (ℕ → Task) → Bool
others_hashed i zero tasks = false
others_hashed i (suc k) tasks =
    if not (i == k) && is_hashed (tasks k).progress then true else others_hashed i k tasks

abbrev pub has_exec : Option ℕ → Bool
has_exec none = false
has_exec (some e) = true

-- `thread_group_empty`
unfoldable pub thread_group_empty : ℕ → Group → Bool
unfolding others_hashed
thread_group_empty i g = not (others_hashed i g.size g.tasks)

-- `wake_up_process(sig->group_exec_task)`
abbrev pub wake : Group → Group
wake g = record g { woken = true }
