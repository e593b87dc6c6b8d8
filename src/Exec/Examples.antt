-- ===== src/Exec/Examples.antt =====
-- Runs of a group of threads of which one execs, and the theorems at concrete inputs.
use mtech.Prelude.{
  ℕ, zero, suc, ◌+◌, ◌*◌, ◌<◌, ◌≤◌, ◌≡◌, ◌≢◌, ◌⊎◌, inl, inr, refl, Bool, true, false, none, some,
  arith,
}
use mtech.Prelude.Int.{pos, negsuc}
use mtech.Exec.State.{
  ExitState, Progress, Task, Waiter, testing, sleeping, leader_sleeping, taken_over, killed, Group,
  is_alive, thread_group_empty, others_hashed,
}
use mtech.Exec.Exit.{
  get_signal_fatal, early_exit, exit_signals, exit_notify, exit_signal_struct, count_down,
}
use mtech.Exec.Dethread.{
  test_count, test_leader, resume, de_thread_begin, zap_other_threads, zap_from, zap_task,
  zap_counts, de_thread_end, take_over, hand_over, assume_identity, exchange_tids,
}
use mtech.Exec.System.{
  Step, Reach, start, later, early, flag, notify, release, count_test, leader_test, wake_up,
}
use mtech.Exec.Members.{awaited, in_group}
use mtech.Exec.Invariant.{left_over}
use mtech.Exec.Complete.{IsReady, de_thread-waits_for_all, de_thread-no_lost_wake_up}
use mtech.Exec.Ends.{is_over, run_length, de_thread-ends}
use mtech.Exec.Hang.{de_thread-hangs}
use mtech.Exec.TakeOver.{IsSucceeded}
use mtech.Exec.Zombie.{IsUndead, de_thread_end-takes_over}

abbrev threads : ℕ → Task
threads i = record {
  pid = 100 + i;
  exiting = false;
  exit_state = ExitState.alive;
  sigkill = false;
  jobctl_pending = false;
  exit_signal = negsuc 0;
  group_leader = 0;
  start_time = 7 + i;
  ptraced = false;
  progress = Progress.running;
}

-- Thread 0 leads, 1 will exec, 2 is another.
abbrev trio : Bool → Group
trio on = record {
  tasks = threads;
  size = 3;
  leader = 0;
  tgid = 100;
  notify_count = pos 0;
  group_exec_task = none;
  group_exit = false;
  group_stop_count = 0;
  optimization_on = on;
  tracked_pid = pos 100;
  waiter = Waiter.finished;
  woken = false;
}

trio-IsReady : (on : Bool) → IsReady 1 (trio on)
trio-IsReady on = record {
  leaders = λ i. refl;
  leader_inside = omega arith;
  leader_hashed = refl;
  dying = λ i x. absurd (ground arith);
  tracked = λ o. refl;
  clean = λ o i. refl;
  parked = λ i x. absurd (ground arith);
  leader_running = λ o. refl;
}

abbrev asleep : Bool → Group
asleep on = test_count 1 (de_thread_begin 1 (trio on)).0

asleep-Reach : (on : Bool) → Reach 1 (de_thread_begin 1 (trio on)).0 (asleep on)
unfolding de_thread_begin zap_other_threads thread_group_empty others_hashed
asleep-Reach on = later start (count_test refl)

abbrev left_by_2 : Group
left_by_2 = exit_signal_struct 2 (exit_notify true 2 (exit_signals 2 (early_exit 2 (asleep false))))

left_by_2-Reach : Reach 1 (de_thread_begin 1 (trio false)).0 left_by_2
unfolding de_thread_begin zap_other_threads thread_group_empty others_hashed zap_from zap_task
    zap_counts test_count early_exit exit_signals exit_notify exit_signal_struct count_down
left_by_2-Reach =
    later
      (later
        (later (later (asleep-Reach false) (early 2 (omega arith) (omega arith) refl))
          (flag 2 (omega arith) (omega arith) refl))
        (notify 2 true (omega arith) (omega arith) refl))
      (release 2 (omega arith) (omega arith) (omega arith) refl)

abbrev on_leader : Group
on_leader = test_leader (test_count 1 (resume 1 left_by_2))

on_leader-Reach : Reach 1 (de_thread_begin 1 (trio false)).0 on_leader
unfolding de_thread_begin zap_other_threads thread_group_empty others_hashed zap_from zap_task
    zap_counts test_count test_leader resume early_exit exit_signals exit_notify exit_signal_struct
    count_down
on_leader-Reach =
    later (later (later left_by_2-Reach (wake_up (inl refl) (inl refl))) (count_test refl))
      (leader_test refl)

abbrev through : Group
through = test_leader (resume 1 (exit_notify true 0 (exit_signals 0 (early_exit 0 on_leader))))

through-Reach : Reach 1 (de_thread_begin 1 (trio false)).0 through
unfolding de_thread_begin zap_other_threads thread_group_empty others_hashed zap_from zap_task
    zap_counts test_count test_leader resume early_exit exit_signals exit_notify exit_signal_struct
    count_down
through-Reach =
    later
      (later
        (later
          (later (later on_leader-Reach (early 0 (omega arith) (omega arith) refl))
            (flag 0 (omega arith) (omega arith) refl))
          (notify 0 true (omega arith) (omega arith) refl))
        (wake_up (inr refl) (inl refl)))
      (leader_test refl)

through-waiter : through.waiter ≡ taken_over
unfolding de_thread_begin zap_other_threads thread_group_empty others_hashed zap_from zap_task
    zap_counts test_count test_leader resume early_exit exit_signals exit_notify exit_signal_struct
    count_down
through-waiter = refl

de_thread-waits_for_all_example :
    ((i : ℕ)
      → i < through.size
      → i ≢ 1
      → i ≢ through.leader
      → awaited through.optimization_on (through.tasks i) ≡ false)
    × ((1 ≡ through.leader) ⊎ (is_alive (through.tasks through.leader).exit_state ≡ false))
de_thread-waits_for_all_example =
    de_thread-waits_for_all (trio-IsReady false) through-Reach through-waiter

asleep-woken : (asleep true).woken ≡ false
unfolding de_thread_begin zap_other_threads thread_group_empty others_hashed zap_from zap_task
    zap_counts test_count
asleep-woken = refl

de_thread-no_lost_wake_up_example :
    ((asleep true).waiter ≡ sleeping
      → ((asleep true).notify_count ≡ pos (left_over 1 (asleep true)))
        × ((i : ℕ) × (i < (asleep true).size)
            × (i ≢ 1)
            × (i ≢ (asleep true).leader)
            × (awaited (asleep true).optimization_on ((asleep true).tasks i) ≡ true)))
    × ((asleep true).waiter ≡ leader_sleeping
        → ((asleep true).notify_count ≡ negsuc 0)
          × (((asleep true).tasks (asleep true).leader).exit_state ≡ ExitState.alive))
de_thread-no_lost_wake_up_example =
    de_thread-no_lost_wake_up (trio-IsReady true) (asleep-Reach true) asleep-woken

-- The count on the way: one thread behind the leader, with the switch on or off.
asleep-notify_count : (on : Bool) → (asleep on).notify_count ≡ pos 1
unfolding de_thread_begin zap_other_threads thread_group_empty others_hashed zap_from zap_task
    zap_counts test_count
asleep-notify_count true = refl
asleep-notify_count false = refl

de_thread-ends_example :
    (run_length (asleep-Reach true) ≤ 24 * 3 + 13)
    × (is_over (asleep true).waiter ≡ false → (h : Group) × Step 1 (asleep true) h)
de_thread-ends_example = de_thread-ends (trio-IsReady true) (asleep-Reach true)

-- The leader has called pthread_exit and is a zombie, and the others are gone.
abbrev lone : ℕ → Task
lone zero = record (threads 0) {
  exiting = true;
  exit_state = ExitState.zombie;
  progress = Progress.notified;
}
lone (suc zero) = threads 1
lone (suc (suc i)) = record (threads (suc (suc i))) {
  exiting = true;
  exit_state = ExitState.dead;
  progress = Progress.released;
}

abbrev lone_group : Group
lone_group = record (trio true) { tasks = lone; size = 2 }

trio-IsUndead : IsUndead 1 (trio false)
trio-IsUndead = record {
  inside = omega arith;
  hashed = refl;
  other = omega arith;
  led = refl;
  untraced = refl;
  undead = λ q. cc;
}

de_thread_end-takes_over_example :
    (k : Group) × (de_thread_end 1 through ≡ some k) × IsSucceeded 1 through k
de_thread_end-takes_over_example =
    de_thread_end-takes_over (trio-IsReady false) trio-IsUndead through-Reach through-waiter

-- The exec of a thread with a dead leader stops.
dead_leader :
    de_thread_end 1
      (record (trio false) { tasks = λ i. record (threads i) { exit_state = ExitState.dead } })
    ≡ none
unfolding de_thread_end take_over hand_over assume_identity exchange_tids
dead_leader = refl

lone-exiting : (i : ℕ) → i ≢ 1 → in_group (lone i) ≡ true → (lone i).exiting ≡ true
lone-exiting zero ne x = refl
lone-exiting (suc zero) ne x = absurd (ne refl)
lone-exiting (suc (suc i)) ne x = refl

abbrev lone_asleep : Group
lone_asleep = test_count 1 (de_thread_begin 1 lone_group).0

lone-thread_group_empty : thread_group_empty 1 lone_group ≡ false
unfolding thread_group_empty others_hashed
lone-thread_group_empty = refl

lone-Reach : Reach 1 (de_thread_begin 1 lone_group).0 lone_asleep
unfolding de_thread_begin zap_other_threads thread_group_empty others_hashed
lone-Reach = later start (count_test refl)

de_thread-hangs_example :
    (lone_asleep.waiter ≡ killed)
    ⊎ (((lone_asleep.waiter ≡ testing) ⊎ (lone_asleep.waiter ≡ sleeping))
        × (lone_asleep.notify_count ≡ negsuc 0))
de_thread-hangs_example =
    de_thread-hangs 1 lone_group lone_asleep refl refl refl lone-thread_group_empty (omega arith)
      lone-exiting lone-Reach

-- A group of four, in which thread 2 has been delivered its SIGKILL and sleeps in the early wake-up.
abbrev parking : Group
parking =
    early_exit 2
      (get_signal_fatal 2 (test_count 1 (de_thread_begin 1 (record (trio true) { size = 4 })).0))

-- Thread 3 wakes the exec thread.
parked-Reach : Reach 1 parking (early_exit 3 parking)
unfolding de_thread_begin zap_other_threads thread_group_empty others_hashed zap_from zap_task
    zap_counts test_count early_exit get_signal_fatal count_down
parked-Reach = later start (early 3 (omega arith) (omega arith) refl)
