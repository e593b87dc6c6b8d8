-- ===== src/Exec/Rank.antt =====
-- A number that every step of the group makes smaller.
use mtech.Prelude.{
  ℕ, zero, suc, ◌+◌, ◌*◌, ◌≤◌, ◌<◌, ◌≡◌, ◌⊎◌, Bool, true, false, if◌then◌else◌, arith,
}
use mtech.Prelude.Family.{update, total, total-update}
use mtech.Exec.State.{
  ExitState, Progress, Task, Waiter, testing, sleeping, leader_testing, leader_sleeping, taken_over,
  killed, finished, Group,
}
use mtech.Exec.Exit.{
  get_signal_fatal, early_exit, unpark, exit_signals, exit_notify, exit_signal_struct, count_down,
}
use mtech.Exec.Dethread.{test_count, test_leader, resume, give_up}
use mtech.Exec.System.{
  Step, early, deliver, awake, flag, notify, release, count_test, leader_test, wake_up,
}

-- The steps that a thread has before it; one more while it may be delivered a SIGKILL.
abbrev ahead : Progress → ℕ
ahead Progress.running = 5
ahead Progress.parked = 4
ahead Progress.entered = 3
ahead Progress.flagged = 2
ahead Progress.notified = 1
ahead Progress.released = 0

abbrev steps : Task → ℕ
steps t = ahead t.progress + (if t.sigkill then 1 else 0)

abbrev wait_rank : Waiter → Bool → ℕ
wait_rank testing woken = 12
wait_rank sleeping woken = if woken then 13 else 11
wait_rank leader_testing woken = 2
wait_rank leader_sleeping woken = if woken then 3 else 1
wait_rank _ woken = 0

-- A bound on the steps that are left.
unfoldable pub rank : Group → ℕ
rank g = 4 * total (λ i. steps) g.size g.tasks + wait_rank g.waiter g.woken

module _ (g : Group) (i : ℕ) (inside : i < g.size) where
  ahead-update :
      (t : Task)
      → total (λ i. steps) g.size (update g.tasks i t) + steps (g.tasks i)
        ≡ total (λ i. steps) g.size g.tasks + steps t
  ahead-update t = total-update (λ i. steps) g.tasks i g.size t inside

  rank-early : (g.tasks i).progress ≡ Progress.running → rank (early_exit i g) < rank g
  unfolding early_exit count_down rank
  rank-early p =
      let a = ahead-update (record (g.tasks i) { progress = Progress.entered }) in
      let b = ahead-update (record (g.tasks i) { exiting = true; progress = Progress.entered }) in
      let c = ahead-update (record (g.tasks i) { exiting = true; progress = Progress.parked }) in
      ground arith

  rank-unpark : (g.tasks i).progress ≡ Progress.parked → rank (unpark i g) < rank g
  unfolding unpark rank
  rank-unpark p =
      let a = ahead-update (record (g.tasks i) { progress = Progress.entered }) in ground arith

  rank-get_signal_fatal : (g.tasks i).sigkill ≡ true → rank (get_signal_fatal i g) < rank g
  unfolding get_signal_fatal rank
  rank-get_signal_fatal s =
      let a = ahead-update (record (g.tasks i) { sigkill = false }) in ground arith

  rank-flag : (g.tasks i).progress ≡ Progress.entered → rank (exit_signals i g) < rank g
  unfolding exit_signals rank
  rank-flag p =
      let b = ahead-update (record (g.tasks i) { exiting = true; progress = Progress.flagged }) in
      ground arith

  rank-notify :
      (answer : Bool)
      → (g.tasks i).progress ≡ Progress.flagged
      → rank (exit_notify answer i g) < rank g
  unfolding exit_notify rank
  rank-notify answer p =
      let a =
        ahead-update
          (record (g.tasks i) { exit_state = ExitState.dead; progress = Progress.notified }) in
      let b =
        ahead-update
          (record (g.tasks i) { exit_state = ExitState.zombie; progress = Progress.notified }) in
      ground arith

  rank-release : (g.tasks i).progress ≡ Progress.notified → rank (exit_signal_struct i g) < rank g
  unfolding exit_signal_struct count_down rank
  rank-release p =
      let a = ahead-update (record (g.tasks i) { progress = Progress.released }) in ground arith

rank-count_test : (e : ℕ) (g : Group) → g.waiter ≡ testing → rank (test_count e g) < rank g
unfolding test_count rank
rank-count_test e g w = ground arith

rank-leader_test : (g : Group) → g.waiter ≡ leader_testing → rank (test_leader g) < rank g
unfolding test_leader rank
rank-leader_test g w = ground arith

rank-wake_up :
    (e : ℕ) (g : Group)
    → (g.waiter ≡ sleeping) ⊎ (g.waiter ≡ leader_sleeping)
    → (g.woken ≡ true) ⊎ ((g.tasks e).sigkill ≡ true)
    → rank (resume e g) < rank g
unfolding resume give_up rank
rank-wake_up e g w r = ground arith

pub Step-rank : {e : ℕ} {g h : Group} → Step e g h → rank h < rank g
Step-rank {e} {g} (early i h ne p) = rank-early g i h p
Step-rank {e} {g} (deliver i h ne p s x) = rank-get_signal_fatal g i h s
Step-rank {e} {g} (awake i h ne p s) = rank-unpark g i h p
Step-rank {e} {g} (flag i h ne p) = rank-flag g i h p
Step-rank {e} {g} (notify i answer h ne p) = rank-notify g i h answer p
Step-rank {e} {g} (release i h ne nl p) = rank-release g i h p
Step-rank {e} {g} (count_test w) = rank-count_test e g w
Step-rank {e} {g} (leader_test w) = rank-leader_test g w
Step-rank {e} {g} (wake_up w r) = rank-wake_up e g w r

ahead_le : (p : Progress) → ahead p ≤ 5
ahead_le Progress.running = omega arith
ahead_le Progress.parked = omega arith
ahead_le Progress.entered = omega arith
ahead_le Progress.flagged = omega arith
ahead_le Progress.notified = omega arith
ahead_le Progress.released = omega arith

steps_le : (t : Task) → steps t ≤ 6
steps_le t = let a = ahead_le t.progress in ground arith

total-ahead_le : (n : ℕ) (tasks : ℕ → Task) → total (λ i. steps) n tasks ≤ 6 * n
unfolding total
total-ahead_le zero tasks = omega arith
total-ahead_le (suc n) tasks = omega (arith, total-ahead_le n tasks, steps_le (tasks n))

wait_rank_le : (w : Waiter) (woken : Bool) → wait_rank w woken ≤ 13
wait_rank_le testing woken = omega arith
wait_rank_le sleeping woken = ground arith
wait_rank_le leader_testing woken = omega arith
wait_rank_le leader_sleeping woken = ground arith
wait_rank_le taken_over woken = omega arith
wait_rank_le finished woken = omega arith
wait_rank_le killed woken = omega arith

pub rank_le : (g : Group) → rank g ≤ 24 * g.size + 13
unfolding rank
rank_le g = omega (arith, total-ahead_le g.size g.tasks, wait_rank_le g.waiter g.woken)
