-- ===== src/Exec/Invariant.antt =====
-- What holds at every point of the waits of `de_thread`.
use mtech.Prelude.{ℕ, ◌+◌, ◌<◌, ◌≡◌, ◌≢◌, ◌⊎◌, Bool, true, false, some, arith}
use mtech.Prelude.Int.{pos, negsuc}
use mtech.Prelude.Family.{update}
use mtech.Exec.State.{
  ExitState, Progress, Task, Waiter, testing, sleeping, leader_testing, leader_sleeping, taken_over,
  finished, killed, Group, is_alive, is_past_notify,
}
use mtech.Exec.Exit.{count_down, is_tracked}
use mtech.Exec.Members.{awaited, members}

-- The threads that `de_thread` has to wait for.
abbrev pub left_over : ℕ → Group → ℕ
left_over e g = members (awaited g.optimization_on) e g.leader g.size g.tasks

-- The exec thread is in `de_thread`, and has not given up.
abbrev pub is_waiting : Waiter → Bool
is_waiting finished = false
is_waiting killed = false
is_waiting _ = true

pub record Inv (e : ℕ) (g : Group) : Type 0 where
  pub tracked : g.optimization_on ≡ true → is_tracked g ≡ true
  pub exec_task : is_waiting g.waiter ≡ true → g.group_exec_task ≡ some e
  pub leaders : (i : ℕ) → (g.tasks i).group_leader ≡ g.leader
  pub counting : (g.waiter ≡ testing) ⊎ (g.waiter ≡ sleeping) → g.notify_count ≡ pos (left_over e g)
  pub asleep : g.waiter ≡ sleeping → g.woken ≡ false → 0 < left_over e g
  pub gone :
      (g.waiter ≡ leader_testing) ⊎ (g.waiter ≡ leader_sleeping) ⊎ (g.waiter ≡ taken_over)
      → left_over e g ≡ 0
  pub leader_asleep :
      g.waiter ≡ leader_sleeping
      → g.woken ≡ false
      → (g.notify_count ≡ negsuc 0) × ((g.tasks g.leader).exit_state ≡ ExitState.alive)
  pub led :
      g.waiter ≡ taken_over → (e ≡ g.leader) ⊎ (is_alive (g.tasks g.leader).exit_state ≡ false)
  pub dying :
      (i : ℕ) → is_past_notify (g.tasks i).progress ≡ true → is_alive (g.tasks i).exit_state ≡ false
  pub other : (g.waiter ≡ leader_testing) ⊎ (g.waiter ≡ leader_sleeping) → e ≢ g.leader
  pub inside : g.leader < g.size
  pub parked :
      (i : ℕ) → (g.tasks i).progress ≡ Progress.parked → (g.optimization_on ≡ true) × (i ≢ g.leader)

module _ (e : ℕ) (g : Group) (inv : Inv e g) where
  module _ (i : ℕ) (inside : i < g.size) where
    -- A thread that keeps its exit state, and changes nothing of the count.
    pub stays-Inv :
        (t : Task)
        → (is_waiting g.waiter ≡ true
            → left_over e (record g { tasks = update g.tasks i t }) ≡ left_over e g)
        → t.group_leader ≡ (g.tasks i).group_leader
        → t.exit_state ≡ (g.tasks i).exit_state
        → (is_past_notify t.progress ≡ true → is_past_notify (g.tasks i).progress ≡ true)
        → (t.progress ≡ Progress.parked → (g.optimization_on ≡ true) × (i ≢ g.leader))
        → Inv e (record g { tasks = update g.tasks i t })
    stays-Inv t same led state before park = record {
      tracked = λ o. ground (arith, inv.tracked o);
      exec_task = λ w. ground (arith, inv.exec_task w);
      leaders = λ j. ground (arith, inv.leaders i, inv.leaders j);
      counting = λ w. ground (arith, inv.counting w);
      asleep = λ w a. ground (arith, inv.asleep w a);
      gone = λ w. ground (arith, inv.gone w);
      leader_asleep = λ w a. ground (arith, inv.leader_asleep w a);
      led = λ w. ground (arith, inv.led w);
      dying = λ j. ground (arith, inv.dying i, inv.dying j);
      other = λ v. ground (arith, inv.other);
      inside = ground (arith, inv.inside);
      parked = λ j. ground (arith, inv.parked j);
    }

    -- A thread that counts down as it changes.
    pub counted-Inv :
        (t : Task)
        → (is_waiting g.waiter ≡ true
            → left_over e (record g { tasks = update g.tasks i t }) + 1 ≡ left_over e g)
        → t.group_leader ≡ (g.tasks i).group_leader
        → t.exit_state ≡ (g.tasks i).exit_state
        → (is_past_notify t.progress ≡ true → is_past_notify (g.tasks i).progress ≡ true)
        → (t.progress ≡ Progress.parked → (g.optimization_on ≡ true) × (i ≢ g.leader))
        → Inv e (record (count_down g) { tasks = update g.tasks i t })
    unfolding count_down
    counted-Inv t one led state before park = record {
      tracked = λ o. ground (arith, inv.tracked);
      exec_task = λ w. ground (arith, inv.exec_task);
      leaders = λ j. ground (arith, inv.leaders i, inv.leaders j);
      counting = λ w. ground arith;
      asleep = λ w a. ground arith;
      gone = λ w. ground arith;
      leader_asleep = λ w a. ground arith;
      led = λ w. ground (arith, inv.led);
      dying = λ j. ground (arith, inv.dying i, inv.dying j);
      other = λ v. ground (arith, inv.other);
      inside = ground (arith, inv.inside);
      parked = λ j. ground (arith, inv.parked j);
    }
