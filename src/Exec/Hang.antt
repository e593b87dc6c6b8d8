-- ===== src/Exec/Hang.antt =====
-- With the project's switch on, a leader that is already exiting makes `notify_count` negative.
use mtech.Prelude.{ℕ, zero, suc, ◌≡◌, ◌≢◌, ◌⊎◌, inr, refl, true, false, none, if◌then◌else◌, arith}
use mtech.Prelude.Int.{negsuc}
use mtech.Prelude.Family.{update}
use mtech.Exec.State.{Progress, Task, testing, sleeping, killed, Group, thread_group_empty}
use mtech.Exec.Exit.{
  get_signal_fatal, early_exit, unpark, wakes, exit_signals, exit_notify, exit_signal_struct,
  count_down,
}
use mtech.Exec.Dethread.{
  test_count, test_leader, resume, give_up, zap_counts, zap_from, zap_other_threads,
  de_thread_begin,
}
use mtech.Exec.System.{
  Step, early, deliver, awake, flag, notify, release, count_test, leader_test, wake_up, Reach,
  start, later,
}
use mtech.Exec.Members.{in_group}
use mtech.Exec.Zap.{zap_from-SameLife}

-- The exec thread has given up, or waits for a count of -1 to be 0.
abbrev IsLimbo : Group → Type 0
IsLimbo g =
    (g.waiter ≡ killed)
    ⊎ (((g.waiter ≡ testing) ⊎ (g.waiter ≡ sleeping)) × (g.notify_count ≡ negsuc 0))

count_down-IsLimbo : (g : Group) → IsLimbo g → IsLimbo (count_down g)
unfolding count_down
count_down-IsLimbo g l = ground arith

early_exit-IsLimbo : (i : ℕ) (g : Group) → IsLimbo g → IsLimbo (early_exit i g)
unfolding early_exit
early_exit-IsLimbo i g l =
    let t = record (g.tasks i) {
      exiting = true;
      progress = if wakes g then Progress.entered else Progress.parked;
    } in
    ground (arith, count_down-IsLimbo (record g { tasks = update g.tasks i t }) l)

release-IsLimbo : (i : ℕ) (g : Group) → IsLimbo g → IsLimbo (exit_signal_struct i g)
unfolding exit_signal_struct
release-IsLimbo i g l = ground (arith, count_down-IsLimbo g l)

Step-IsLimbo : {e : ℕ} {g h : Group} → Step e g h → IsLimbo g → IsLimbo h
unfolding get_signal_fatal unpark exit_signals exit_notify test_count test_leader resume give_up
Step-IsLimbo {e} {g} (early i h ne p) l = early_exit-IsLimbo i g l
Step-IsLimbo {e} {g} (deliver i h ne p s x) l = ground arith
Step-IsLimbo {e} {g} (awake i h ne p s) l = ground arith
Step-IsLimbo {e} {g} (flag i h ne p) l = ground arith
Step-IsLimbo {e} {g} (notify i answer h ne p) l = ground arith
Step-IsLimbo {e} {g} (release i h ne nl p) l = release-IsLimbo i g l
Step-IsLimbo {e} {g} (count_test w) l = ground arith
Step-IsLimbo {e} {g} (leader_test w) l = ground arith
Step-IsLimbo {e} {g} (wake_up w r) l = ground arith

Reach-IsLimbo : {e : ℕ} {g h : Group} → Reach e g h → IsLimbo g → IsLimbo h
Reach-IsLimbo start l = l
Reach-IsLimbo (later r st) l = Step-IsLimbo st (Reach-IsLimbo r l)

zap_from-none :
    (p k : ℕ) (tasks : ℕ → Task)
    → ((i : ℕ) → i ≢ p → in_group (tasks i) ≡ true → (tasks i).exiting ≡ true)
    → (zap_from true p k tasks).1 ≡ 0
unfolding zap_from zap_counts
zap_from-none p zero tasks all = refl
zap_from-none p (suc k) tasks all = ground (arith, zap_from-none p k tasks all, all k)

begin-IsLimbo :
    (e : ℕ) (g : Group)
    → g.optimization_on ≡ true
    → g.group_exit ≡ false
    → g.group_exec_task ≡ none
    → thread_group_empty e g ≡ false
    → (g.tasks e).group_leader ≢ e
    → ((i : ℕ) → i ≢ e → in_group (g.tasks i) ≡ true → (g.tasks i).exiting ≡ true)
    → IsLimbo (de_thread_begin e g).0
unfolding de_thread_begin zap_other_threads
begin-IsLimbo e g on no_exit no_exec many ne all =
    let count = zap_from-none e g.size g.tasks all in
    let life = (zap_from-SameLife true e g.size g.tasks e).group_leader in
    inr (ground arith, ground arith)

-- With the project's switch on, let a thread that is not the leader call exec when every other thread
-- of its group, such as a leader that has called pthread_exit, has PF_EXITING already. Then in every
-- order of the threads' steps it never comes out of the first loop of `de_thread`: at each point it
-- has given up on a fatal signal, or it is in that loop and `notify_count` is -1.
pub de_thread-hangs :
    (e : ℕ) (g k : Group)
    → g.optimization_on ≡ true
    → g.group_exit ≡ false
    → g.group_exec_task ≡ none
    → thread_group_empty e g ≡ false
    → (g.tasks e).group_leader ≢ e
    → ((i : ℕ) → i ≢ e → in_group (g.tasks i) ≡ true → (g.tasks i).exiting ≡ true)
    → Reach e (de_thread_begin e g).0 k
    → (k.waiter ≡ killed)
      ⊎ (((k.waiter ≡ testing) ⊎ (k.waiter ≡ sleeping)) × (k.notify_count ≡ negsuc 0))
de_thread-hangs e g k on no_exit no_exec many ne all r =
    Reach-IsLimbo r (begin-IsLimbo e g on no_exit no_exec many ne all)
