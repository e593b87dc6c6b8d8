-- ===== src/Exec/Exit.antt =====
-- The parts of `do_exit` that concern an exec that waits, in the order in which a thread runs them.
use mtech.Prelude.{ℕ, Bool, true, false, Option, none, some, not, ◌&&◌, ◌||◌, ◌==◌, if◌then◌else◌}
use mtech.Prelude.Int.{pos, eqb_ℤ}
use mtech.Exec.State.{
  ExitState, Progress, Group, set_task, decrement, is_positive, is_negative, is_zero,
  thread_group_empty, wake,
}

-- `sig->group_exec_task && sig->group_exec_task != tsk`
abbrev pub other_execs : Option ℕ → ℕ → Bool
other_execs none i = false
other_execs (some e) i = not (e == i)

abbrev pub is_tracked : Group → Bool
is_tracked g = eqb_ℤ g.tracked_pid (pos g.tgid)

-- `if (notify_count > 0 && !--notify_count) wake_up_process(group_exec_task)`
unfoldable pub count_down : Group → Group
count_down g =
    if is_positive g.notify_count
    then (let g' = record g { notify_count = decrement g.notify_count } in
        if is_zero g'.notify_count then wake g' else g')
    else g

-- Whether `count_down` wakes the exec thread.
abbrev pub wakes : Group → Bool
wakes g = is_positive g.notify_count && is_zero (decrement g.notify_count)

-- The branch of `get_signal` for a group in which a thread execs: the SIGKILL is consumed.
unfoldable pub get_signal_fatal : ℕ → Group → Group
get_signal_fatal i g = set_task i (record (g.tasks i) { sigkill = false }) g

-- The early wake-up of `do_exit`, which also sets PF_EXITING. A thread that does not wake the exec
-- thread goes to sleep.
unfoldable pub early_exit : ℕ → Group → Group
early_exit i g =
    let t = g.tasks i in
    if g.optimization_on
      && (is_tracked g && (other_execs g.group_exec_task i && not (i == t.group_leader)))
    then count_down (
        set_task i
          (record t {
            exiting = true;
            progress = if wakes g then Progress.entered else Progress.parked;
          })
          g)
    else set_task i (record t { progress = Progress.entered }) g

-- The `schedule` of the early wake-up returns.
unfoldable pub unpark : ℕ → Group → Group
unpark i g = set_task i (record (g.tasks i) { progress = Progress.entered }) g

-- `exit_signals`
unfoldable pub exit_signals : ℕ → Group → Group
exit_signals i g = set_task i (record (g.tasks i) { exiting = true; progress = Progress.flagged }) g

-- `exit_notify`; `answer` is what `do_notify_parent` returns.
unfoldable pub exit_notify : Bool → ℕ → Group → Group
exit_notify answer i g =
    let t = g.tasks i in
    let autoreap =
      if t.ptraced
      then answer
      else (if i == t.group_leader then thread_group_empty i g && answer else true) in
    let t' = record t {
      exit_state = if autoreap then ExitState.dead else ExitState.zombie;
      progress = Progress.notified;
    } in
    let g' = set_task i t' g in if is_negative g.notify_count then wake g' else g'

-- `__exit_signal` of a thread that is not its group's leader, with `__unhash_process`.
unfoldable pub exit_signal_struct : ℕ → Group → Group
exit_signal_struct i g =
    let t = g.tasks i in
    let counted =
      if i == t.group_leader
      then g
      else (if not g.optimization_on || not (is_tracked g) then count_down g else g) in
    set_task i (record t { progress = Progress.released }) counted
