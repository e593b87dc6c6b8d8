-- ===== src/Exec/Waits.antt =====
-- The steps of the group keep what `notify_count` counts while `de_thread` waits.
use mtech.Prelude.{
  ℕ, ◌<◌, ◌≡◌, ◌≢◌, ◌⊎◌, inl, refl, Bool, true, false, not, ◌&&◌, ◌==◌, if◌then◌else◌, arith,
}
use mtech.Prelude.Family.{update}
use mtech.Exec.State.{
  Progress, Task, testing, sleeping, leader_testing, leader_sleeping, Group, is_alive, is_negative,
  wake,
}
use mtech.Exec.Exit.{
  get_signal_fatal, early_exit, unpark, wakes, exit_signals, exit_notify, exit_signal_struct,
  count_down, is_tracked, other_execs,
}
use mtech.Exec.Dethread.{test_count, test_leader, resume, give_up}
use mtech.Exec.System.{
  Step, early, deliver, awake, flag, notify, release, count_test, leader_test, wake_up, Reach,
  start, later,
}
use mtech.Exec.Members.{awaited, members-update}
use mtech.Exec.Invariant.{Inv, left_over, stays-Inv, counted-Inv}

module _ (e : ℕ) (g : Group) (inv : Inv e g) where
  module _ (i : ℕ) (inside : i < g.size) where
    -- What `early_exit` tests.
    early_counts : Bool
    early_counts =
        g.optimization_on
        && (is_tracked g
            && (other_execs g.group_exec_task i && not (i == (g.tasks i).group_leader)))

    early_exit-plain :
        early_counts ≡ false
        → early_exit i g ≡ record g {
          tasks = update g.tasks i (record (g.tasks i) { progress = Progress.entered });
        }
    unfolding early_exit early_counts
    early_exit-plain c = ground arith

    early_task : Task
    early_task = record (g.tasks i) {
      exiting = true;
      progress = if wakes g then Progress.entered else Progress.parked;
    }

    early_exit-counted :
        early_counts ≡ true
        → early_exit i g ≡ record (count_down g) { tasks = update g.tasks i early_task }
    unfolding early_exit early_counts early_task count_down
    early_exit-counted c = ground arith

    early-Inv_cases :
        (b : Bool)
        → early_counts ≡ b
        → i ≢ e
        → (g.tasks i).progress ≡ Progress.running
        → Inv e (early_exit i g)
    unfolding early_counts early_task
    early-Inv_cases false c ne p =
        let t : Task = record (g.tasks i) { progress = Progress.entered } in
        let m = members-update (awaited g.optimization_on) e g.leader g.size g.tasks i inside t in
        rw (early_exit-plain c) (
          stays-Inv e g inv i inside t
            (λ w. ground (arith, inv.exec_task w, inv.tracked, inv.leaders i)) refl refl
            (λ x. ground arith) (λ x. ground arith))
    early-Inv_cases true c ne p =
        let t : Task = early_task in
        let m = members-update (awaited g.optimization_on) e g.leader g.size g.tasks i inside t in
        rw (early_exit-counted c) (
          counted-Inv e g inv i inside t (λ w. ground (arith, inv.exec_task w, inv.leaders i)) refl
            refl (λ x. ground arith) (λ x. ground (arith, inv.leaders i)))

    early-Inv : i ≢ e → (g.tasks i).progress ≡ Progress.running → Inv e (early_exit i g)
    early-Inv = early-Inv_cases _ refl

    flag-Inv : (g.tasks i).progress ≡ Progress.entered → Inv e (exit_signals i g)
    unfolding exit_signals
    flag-Inv p =
        let t : Task = record (g.tasks i) { exiting = true; progress = Progress.flagged } in
        let m = members-update (awaited g.optimization_on) e g.leader g.size g.tasks i inside t in
        stays-Inv e g inv i inside t (λ w. ground arith) refl refl (λ x. ground arith)
          (λ x. ground arith)

    unpark-Inv : (g.tasks i).progress ≡ Progress.parked → Inv e (unpark i g)
    unfolding unpark
    unpark-Inv p =
        let t : Task = record (g.tasks i) { progress = Progress.entered } in
        let m = members-update (awaited g.optimization_on) e g.leader g.size g.tasks i inside t in
        stays-Inv e g inv i inside t (λ w. ground arith) refl refl (λ x. ground arith)
          (λ x. ground arith)

    deliver-Inv : (g.tasks i).progress ≡ Progress.running → Inv e (get_signal_fatal i g)
    unfolding get_signal_fatal
    deliver-Inv p =
        let t : Task = record (g.tasks i) { sigkill = false } in
        let m = members-update (awaited g.optimization_on) e g.leader g.size g.tasks i inside t in
        stays-Inv e g inv i inside t (λ w. ground arith) refl refl (λ x. ground arith)
          (λ x. ground arith)

    -- A thread that becomes a zombie or dead, and wakes a waiter for the leader.
    woken-Inv :
        (t : Task)
        → awaited g.optimization_on t ≡ awaited g.optimization_on (g.tasks i)
        → t.group_leader ≡ (g.tasks i).group_leader
        → is_alive t.exit_state ≡ false
        → t.progress ≡ Progress.notified
        → let g' = record g { tasks = update g.tasks i t } in
          Inv e (if is_negative g.notify_count then wake g' else g')
    woken-Inv t hashed led gone past =
        let m = members-update (awaited g.optimization_on) e g.leader g.size g.tasks i inside t in
        let same : left_over e (record g { tasks = update g.tasks i t }) ≡ left_over e g =
          ground arith in
        record {
          tracked = λ o. ground (arith, inv.tracked);
          exec_task = λ v. ground (arith, inv.exec_task);
          leaders = λ j. ground (arith, inv.leaders i, inv.leaders j);
          counting = λ w. ground arith;
          asleep = λ w a. ground arith;
          gone = λ w. ground arith;
          leader_asleep = λ w a. ground arith;
          led = λ w. ground (arith, inv.led);
          dying = λ j. ground (arith, inv.dying i, inv.dying j);
          other = λ v. ground (arith, inv.other);
          inside = ground (arith, inv.inside);
          parked = λ j. ground (arith, inv.parked j);
        }

    notify-Inv :
        (answer : Bool) → (g.tasks i).progress ≡ Progress.flagged → Inv e (exit_notify answer i g)
    unfolding exit_notify
    notify-Inv answer p = woken-Inv _ (ground arith) refl (ground arith) refl

    release-plain :
        g.optimization_on ≡ true
        → exit_signal_struct i g ≡ record g {
          tasks = update g.tasks i (record (g.tasks i) { progress = Progress.released });
        }
    unfolding exit_signal_struct
    release-plain o = ground (arith, inv.tracked o)

    release-counted :
        g.optimization_on ≡ false
        → i ≢ g.leader
        → exit_signal_struct i g ≡ record (count_down g) {
          tasks = update g.tasks i (record (g.tasks i) { progress = Progress.released });
        }
    unfolding exit_signal_struct count_down
    release-counted o nl = ground (arith, inv.leaders i)

    release-Inv_cases :
        (b : Bool)
        → g.optimization_on ≡ b
        → i ≢ e
        → i ≢ g.leader
        → (g.tasks i).progress ≡ Progress.notified
        → Inv e (exit_signal_struct i g)
    release-Inv_cases true o ne nl p =
        let t : Task = record (g.tasks i) { progress = Progress.released } in
        let m = members-update (awaited g.optimization_on) e g.leader g.size g.tasks i inside t in
        rw (release-plain o) (
          stays-Inv e g inv i inside t (λ w. ground arith) refl refl (λ x. ground arith)
            (λ x. ground arith))
    release-Inv_cases false o ne nl p =
        let t : Task = record (g.tasks i) { progress = Progress.released } in
        let m = members-update (awaited g.optimization_on) e g.leader g.size g.tasks i inside t in
        rw (release-counted o nl) (
          counted-Inv e g inv i inside t (λ w. ground arith) refl refl (λ x. ground arith)
            (λ x. ground arith))

    release-Inv :
        i ≢ e
        → i ≢ g.leader
        → (g.tasks i).progress ≡ Progress.notified
        → Inv e (exit_signal_struct i g)
    release-Inv = release-Inv_cases _ refl

  count_test-Inv : g.waiter ≡ testing → Inv e (test_count e g)
  unfolding test_count
  count_test-Inv w = record {
    tracked = λ o. ground (arith, inv.tracked);
    exec_task = λ v. ground (arith, inv.exec_task);
    leaders = λ j. ground (arith, inv.leaders j);
    counting = λ v. ground (arith, inv.counting (inl w));
    asleep = λ v a. ground (arith, inv.counting (inl w));
    gone = λ v. ground (arith, inv.counting (inl w));
    leader_asleep = λ v a. ground arith;
    led = λ v. ground (arith, inv.led, inv.leaders e);
    dying = λ j. ground (arith, inv.dying j);
    other = λ v. ground (arith, inv.other, inv.leaders e);
    inside = ground (arith, inv.inside);
    parked = λ j. ground (arith, inv.parked j);
  }

  leader_test-Inv : g.waiter ≡ leader_testing → Inv e (test_leader g)
  unfolding test_leader
  leader_test-Inv w = record {
    tracked = λ o. ground (arith, inv.tracked);
    exec_task = λ v. ground (arith, inv.exec_task);
    leaders = λ j. ground (arith, inv.leaders j);
    counting = λ v. ground arith;
    asleep = λ v a. ground arith;
    gone = λ v. ground (arith, inv.gone (inl w));
    leader_asleep = λ v a. ground arith;
    led = λ v. ground (arith, inv.led, inv.leaders e);
    dying = λ j. ground (arith, inv.dying j);
    other = λ v. ground (arith, inv.other, inv.leaders e);
    inside = ground (arith, inv.inside);
    parked = λ j. ground (arith, inv.parked j);
  }

  wake_up-Inv : (g.waiter ≡ sleeping) ⊎ (g.waiter ≡ leader_sleeping) → Inv e (resume e g)
  unfolding resume give_up
  wake_up-Inv w = record {
    tracked = λ o. ground (arith, inv.tracked);
    exec_task = λ v. ground (arith, inv.exec_task);
    leaders = λ j. ground (arith, inv.leaders j);
    counting = λ v. ground (arith, inv.counting);
    asleep = λ v a. ground arith;
    gone = λ v. ground (arith, inv.gone);
    leader_asleep = λ v a. ground arith;
    led = λ v. ground (arith, inv.led, inv.leaders e);
    dying = λ j. ground (arith, inv.dying j);
    other = λ v. ground (arith, inv.other, inv.leaders e);
    inside = ground (arith, inv.inside);
    parked = λ j. ground (arith, inv.parked j);
  }

-- No step of any thread breaks the invariant.
pub Step-Inv : {e : ℕ} {g h : Group} → Step e g h → Inv e g → Inv e h
Step-Inv {e} {g} (early i h ne p) inv = early-Inv e g inv i h ne p
Step-Inv {e} {g} (deliver i h ne p s x) inv = deliver-Inv e g inv i h p
Step-Inv {e} {g} (awake i h ne p s) inv = unpark-Inv e g inv i h p
Step-Inv {e} {g} (flag i h ne p) inv = flag-Inv e g inv i h p
Step-Inv {e} {g} (notify i answer h ne p) inv = notify-Inv e g inv i h answer p
Step-Inv {e} {g} (release i h ne nl p) inv = release-Inv e g inv i h ne nl p
Step-Inv {e} {g} (count_test w) inv = count_test-Inv e g inv w
Step-Inv {e} {g} (leader_test w) inv = leader_test-Inv e g inv w
Step-Inv {e} {g} (wake_up w r) inv = wake_up-Inv e g inv w

pub Reach-Inv : {e : ℕ} {g h : Group} → Inv e g → Reach e g h → Inv e h
Reach-Inv inv start = inv
Reach-Inv inv (later r st) = Step-Inv st (Reach-Inv inv r)
