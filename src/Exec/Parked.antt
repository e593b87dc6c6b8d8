-- ===== src/Exec/Parked.antt =====
-- What becomes of a thread that sleeps in the early wake-up.
use mtech.Prelude.{ℕ, ◌≡◌, ◌≢◌, ◌∙◌, false, some, arith}
use mtech.Exec.State.{Progress, Task, Group}
use mtech.Exec.Exit.{
  get_signal_fatal, early_exit, unpark, exit_signals, exit_notify, exit_signal_struct, count_down,
}
use mtech.Exec.Dethread.{test_count, test_leader, resume, give_up, de_thread_end}
use mtech.Exec.System.{
  Step, early, deliver, awake, flag, notify, release, count_test, leader_test, wake_up, Reach,
  start, later,
}
use mtech.Exec.TakeOver.{ended-IsSucceeded}

-- The thread sleeps there, and no SIGKILL is pending for it.
abbrev IsParked : Task → Type 0
IsParked t = (t.progress ≡ Progress.parked) × (t.sigkill ≡ false)

count_down-tasks : (g : Group) → (count_down g).tasks ≡ g.tasks
unfolding count_down
count_down-tasks g = ground arith

module _ (i : ℕ) where
  early_exit-IsParked :
      (j : ℕ) (g : Group)
      → (g.tasks j).progress ≡ Progress.running
      → IsParked (g.tasks i)
      → IsParked ((early_exit j g).tasks i)
  unfolding early_exit count_down
  early_exit-IsParked j g p l = ground arith

  release-IsParked :
      (j : ℕ) (g : Group)
      → (g.tasks j).progress ≡ Progress.notified
      → IsParked (g.tasks i)
      → IsParked ((exit_signal_struct j g).tasks i)
  unfolding exit_signal_struct count_down
  release-IsParked j g p l = ground arith

  Step-IsParked : {e : ℕ} {g h : Group} → Step e g h → IsParked (g.tasks i) → IsParked (h.tasks i)
  unfolding get_signal_fatal unpark exit_signals exit_notify test_count test_leader resume give_up
  Step-IsParked {e} {g} (early j h ne p) l = early_exit-IsParked j g p l
  Step-IsParked {e} {g} (deliver j h ne p s x) l = ground arith
  Step-IsParked {e} {g} (awake j h ne p s) l = ground arith
  Step-IsParked {e} {g} (flag j h ne p) l = ground arith
  Step-IsParked {e} {g} (notify j answer h ne p) l = ground arith
  Step-IsParked {e} {g} (release j h ne nl p) l = release-IsParked j g p l
  Step-IsParked {e} {g} (count_test w) l = ground arith
  Step-IsParked {e} {g} (leader_test w) l = ground arith
  Step-IsParked {e} {g} (wake_up w r) l = ground arith

  Reach-IsParked : {e : ℕ} {g k : Group} → Reach e g k → IsParked (g.tasks i) → IsParked (k.tasks i)
  Reach-IsParked start l = l
  Reach-IsParked (later r st) l = Step-IsParked st (Reach-IsParked r l)

-- A thread that a SIGKILL has brought to the early wake-up, so that none is pending any more, and that
-- sleeps there, sleeps on while `de_thread` waits, and after its end, where it does not stop on BUG, is
-- still in the group and asleep.
pub parked-stays :
    {e : ℕ} {g k : Group}
    → Reach e g k
    → (i : ℕ) → i ≢ e
    → i ≢ k.leader
    → e ≢ k.leader
    → (k.tasks e).group_leader ≡ k.leader
    → (g.tasks i).progress ≡ Progress.parked
    → (g.tasks i).sigkill ≡ false
    → {h : Group} → de_thread_end e k ≡ some h
    → ((k.tasks i).progress ≡ Progress.parked)
      × ((h.tasks i).progress ≡ Progress.parked)
      × ((h.tasks i).sigkill ≡ false)
parked-stays {e} {g} {k} r i ne nl other led p s {h} ended =
    let (p', s') = Reach-IsParked i r (p, s) in
    let t = ended-IsSucceeded e k other led ended in
    let same = t.other_progress i ne nl in (p', same.0 ∙ p', same.1 ∙ s')
