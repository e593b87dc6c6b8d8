-- ===== src/Exec/Dethread.antt =====
-- `zap_other_threads`, and `de_thread` cut at the places where it sleeps.
use mtech.Prelude.{
  ℕ, zero, suc, ◌+◌, Bool, true, false, Option, ◌>>=◌, none, some, not, ◌&&◌, ◌||◌, ◌==◌,
  if◌then◌else◌,
}
use mtech.Prelude.Int.{ℤ, pos, negsuc}
use mtech.Prelude.Family.{update}
use mtech.Exec.State.{
  ExitState, Progress, Task, Waiter, testing, sleeping, leader_testing, leader_sleeping, taken_over,
  finished, killed, Group, set_task, decrement, is_zero, is_alive, is_zombie, is_hashed, has_exec,
  thread_group_empty,
}

-- One round of `zap_other_threads` on a thread: SIGKILL, unless it is dead.
unfoldable pub zap_task : Task → Task
zap_task t = record t {
  jobctl_pending = false;
  sigkill = if is_alive t.exit_state then true else t.sigkill;
}

-- Whether the round counts the thread.
unfoldable pub zap_counts : Bool → Task → Bool
zap_counts optimization_on t = not optimization_on || not t.exiting

-- The loop over the first `k` threads of the group but `p`: the threads and the count.
unfoldable pub zap_from : Bool → ℕ → ℕ → (ℕ → Task) → (ℕ → Task) × ℕ
zap_from opt p zero tasks = (tasks, 0)
zap_from opt p (suc k) tasks =
    let (tasks', count) = zap_from opt p k tasks in
    if not (p == k) && is_hashed (tasks k).progress
    then (update tasks' k (zap_task (tasks k)), count + (if zap_counts opt (tasks k) then 1 else 0))
    else (tasks', count)

unfoldable pub zap_other_threads : ℕ → Group → Group × ℕ
zap_other_threads p g =
    let (tasks', count) = zap_from g.optimization_on p g.size g.tasks in
    (record g { tasks = tasks'; group_stop_count = 0 }, count)

abbrev pub sigchld : ℤ
sigchld = pos 17

-- The start of `de_thread`, up to its first wait; `false` is `-EAGAIN`.
unfoldable pub de_thread_begin : ℕ → Group → Group × Bool
de_thread_begin e g =
    if thread_group_empty e g
    then (
      record (set_task e (record (g.tasks e) { exit_signal = sigchld }) g) { waiter = finished },
      true,
    )
    else (if g.group_exit || has_exec g.group_exec_task
        then (record g { waiter = killed }, false)
        else (let zapped = zap_other_threads e (record g { group_exec_task = some e }) in
            let count = pos zapped.1 in
            (
              record (zapped.0) {
                notify_count =
                    if e == (zapped.0.tasks e).group_leader then count else decrement count;
                waiter = testing;
              },
              true,
            )))

-- `sig->group_exec_task = NULL; sig->notify_count = 0`
unfoldable pub give_up : Group → Group
give_up g = record g { group_exec_task = none; notify_count = pos 0; waiter = killed }

-- The test of `while (sig->notify_count)`, under the lock: on, or to sleep.
unfoldable pub test_count : ℕ → Group → Group
test_count e g =
    if is_zero g.notify_count
    then (if e == (g.tasks e).group_leader
        then record g { waiter = taken_over }
        else record g { waiter = leader_testing })
    else record g { waiter = sleeping; woken = false }

-- A round of the loop that waits for the leader.
unfoldable pub test_leader : Group → Group
test_leader g =
    if is_alive (g.tasks g.leader).exit_state
    then record g { notify_count = negsuc 0; waiter = leader_sleeping; woken = false }
    else record g { notify_count = negsuc 0; waiter = taken_over }

abbrev pub back_to_test : Waiter → Waiter
back_to_test leader_sleeping = leader_testing
back_to_test _ = testing

-- After `schedule`: give up on a fatal signal, or test again.
unfoldable pub resume : ℕ → Group → Group
resume e g = if (g.tasks e).sigkill then give_up g else record g { waiter = back_to_test g.waiter }

-- `exchange_tids`: the numbers of two threads.
unfoldable pub exchange_tids : ℕ → ℕ → Group → Group
exchange_tids left right g =
    let a = g.tasks left in
    let b = g.tasks right in
    set_task right (record b { pid = a.pid }) (set_task left (record a { pid = b.pid }) g)

-- `for_each_thread(tsk, t) if (t != tsk && t != leader) t->group_leader = tsk`
unfoldable pub redirect : ℕ → ℕ → ℕ → (ℕ → Task) → ℕ → Task
redirect e leader zero tasks = tasks
redirect e leader (suc k) tasks =
    let rest = redirect e leader k tasks in
    if not (k == e) && (not (k == leader) && is_hashed (tasks k).progress)
    then update rest k (record (tasks k) { group_leader = e })
    else rest

-- The exec thread takes the leader's age and number, and leads itself and the old leader.
unfoldable pub assume_identity : ℕ → Group → Group
assume_identity e g =
    let l = g.leader in
    let aged = set_task e (record (g.tasks e) { start_time = (g.tasks l).start_time }) g in
    let swapped = exchange_tids e l aged in
    let led = set_task e (record (swapped.tasks e) { group_leader = e }) swapped in
    set_task l (record (led.tasks l) { group_leader = e }) led

-- What a thread that is not the leader takes from the leader, up to the test of the leader's state.
unfoldable pub hand_over : ℕ → Group → Group
hand_over e g =
    let l = g.leader in
    let led = assume_identity e g in
    let all = record led {
      tasks = if g.optimization_on then redirect e l g.size led.tasks else led.tasks;
    } in
    let signalled = set_task e (record (all.tasks e) { exit_signal = sigchld }) all in
    set_task l (record (signalled.tasks l) { exit_signal = negsuc 0 }) signalled

-- All of it, `release_task` included; `none` is `BUG_ON(leader->exit_state != EXIT_ZOMBIE)`.
unfoldable pub take_over : ℕ → Group → Option Group
take_over e g =
    let l = g.leader in
    let g' = hand_over e g in
    if not (is_zombie (g'.tasks l).exit_state)
    then none
    else some (
        set_task l
          (record (g'.tasks l) { exit_state = ExitState.dead; progress = Progress.released }) g')

-- `no_thread_group`, with the resets in front of it.
unfoldable pub leave : ℕ → Group → Group
leave e g = record (set_task e (record (g.tasks e) { exit_signal = sigchld }) g) {
  group_exec_task = none;
  notify_count = pos 0;
  waiter = finished;
}

-- The end of `de_thread`; a thread that is no leader takes over first. `none` is the BUG.
unfoldable pub de_thread_end : ℕ → Group → Option Group
de_thread_end e g =
    if e == (g.tasks e).group_leader
    then some (leave e g)
    else (do g' ← take_over e g; some (leave e (record g' { leader = e })))
