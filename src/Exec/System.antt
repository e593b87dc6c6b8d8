-- ===== src/Exec/System.antt =====
-- The threads of a group while one of them execs: every order of their steps.
use mtech.Prelude.{ℕ, ◌<◌, ◌≡◌, ◌≢◌, ◌⊎◌, ◌||◌, Bool, true}
use mtech.Exec.State.{Progress, testing, sleeping, leader_testing, leader_sleeping, has_exec, Group}
use mtech.Exec.Exit.{
  get_signal_fatal, early_exit, unpark, exit_signals, exit_notify, exit_signal_struct,
}
use mtech.Exec.Dethread.{test_count, test_leader, resume}

-- Only a SIGKILL ends the sleep of the early wake-up, which is TASK_KILLABLE: no one calls
-- wake_up_process for a thread there. A step of the exec thread `e`, or of another thread `i` on its way out. A leader is not released
-- while another thread is there.
pub data Step (e : ℕ) (g : Group) : Group → Type 0 where
  early :
      (i : ℕ)
      → i < g.size
      → i ≢ e
      → (g.tasks i).progress ≡ Progress.running
      → Step e g (early_exit i g)
  deliver :
      (i : ℕ)
      → i < g.size
      → i ≢ e
      → (g.tasks i).progress ≡ Progress.running
      → (g.tasks i).sigkill ≡ true
      → (g.group_exit || has_exec g.group_exec_task) ≡ true
      → Step e g (get_signal_fatal i g)
  awake :
      (i : ℕ)
      → i < g.size
      → i ≢ e
      → (g.tasks i).progress ≡ Progress.parked
      → (g.tasks i).sigkill ≡ true
      → Step e g (unpark i g)
  flag :
      (i : ℕ)
      → i < g.size
      → i ≢ e
      → (g.tasks i).progress ≡ Progress.entered
      → Step e g (exit_signals i g)
  notify :
      (i : ℕ) (answer : Bool)
      → i < g.size
      → i ≢ e
      → (g.tasks i).progress ≡ Progress.flagged
      → Step e g (exit_notify answer i g)
  release :
      (i : ℕ)
      → i < g.size
      → i ≢ e
      → i ≢ g.leader
      → (g.tasks i).progress ≡ Progress.notified
      → Step e g (exit_signal_struct i g)
  count_test : g.waiter ≡ testing → Step e g (test_count e g)
  leader_test : g.waiter ≡ leader_testing → Step e g (test_leader g)
  wake_up :
      (g.waiter ≡ sleeping) ⊎ (g.waiter ≡ leader_sleeping)
      → (g.woken ≡ true) ⊎ ((g.tasks e).sigkill ≡ true)
      → Step e g (resume e g)

-- The states of a run from `g`.
pub data Reach (e : ℕ) (g : Group) : Group → Type 0 where
  start : Reach e g g
  later : {h k : Group} → Reach e g h → Step e h k → Reach e g k
