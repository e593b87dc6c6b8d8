-- ===== src/Exec/Complete.antt =====
-- What `de_thread` promises, from its first test of `notify_count` to the end of its waits.
use mtech.Prelude.{ℕ, ◌<◌, ◌≡◌, ◌≢◌, ◌⊎◌, inr, refl, Bool, true, false, not, arith}
use mtech.Prelude.Int.{pos, negsuc}
use mtech.Prelude.Family.{total_ext, total_pos}
use mtech.Exec.State.{
  ExitState, Progress, Task, sleeping, leader_sleeping, taken_over, Group, is_alive, is_past_notify,
  is_running,
}
use mtech.Exec.Dethread.{zap_from, zap_other_threads, zap_counts, de_thread_begin}
use mtech.Exec.Exit.{is_tracked}
use mtech.Exec.System.{Reach}
use mtech.Exec.Members.{in_group, awaited, weight, members, members-member}
use mtech.Exec.Zap.{zap_from-SameLife, counted, zap_from-members}
use mtech.Exec.Invariant.{Inv, left_over}
use mtech.Exec.Waits.{Reach-Inv}

-- A group that is ready for an exec. All threads have one leader, which is in the group, and a thread
-- past exit_notify is not alive. With the switch on, the process is tracked, a thread has PF_EXITING
-- just when it is in the early wake-up or past it, and the leader is before it. With it off, no
-- thread sleeps in the early wake-up, and a leader never does.
pub record IsReady (e : ℕ) (g : Group) : Type 0 where
  pub leaders : (i : ℕ) → (g.tasks i).group_leader ≡ g.leader
  pub leader_inside : g.leader < g.size
  pub leader_hashed : in_group (g.tasks g.leader) ≡ true
  pub dying :
      (i : ℕ) → is_past_notify (g.tasks i).progress ≡ true → is_alive (g.tasks i).exit_state ≡ false
  pub tracked : g.optimization_on ≡ true → is_tracked g ≡ true
  pub clean :
      g.optimization_on ≡ true
      → (i : ℕ) → (g.tasks i).exiting ≡ not (is_running (g.tasks i).progress)
  pub parked :
      (i : ℕ) → (g.tasks i).progress ≡ Progress.parked → (g.optimization_on ≡ true) × (i ≢ g.leader)
  pub leader_running : g.optimization_on ≡ true → (g.tasks g.leader).progress ≡ Progress.running

-- The count of `zap_other_threads`, less one for the leader, is that of the zapped group.
members-zap_from :
    (opt : Bool) (e l p k n : ℕ) (tasks : ℕ → Task)
    → (opt ≡ true → (i : ℕ) → (tasks i).exiting ≡ not (is_running (tasks i).progress))
    → members (awaited opt) e l n (zap_from opt p k tasks).0 ≡ members (counted opt) e l n tasks
unfolding members zap_counts
members-zap_from false e l p k n tasks clean =
    total_ext (weight (awaited false) e l) (weight (counted false) e l) n _ _
      (λ i below. ground (arith, (zap_from-SameLife false p k tasks i).progress))
members-zap_from true e l p k n tasks clean =
    total_ext (weight (awaited true) e l) (weight (counted true) e l) n _ _
      (λ i below. ground (arith, (zap_from-SameLife true p k tasks i).progress, clean refl i))

pub begin-Inv : {e : ℕ} {g : Group} → IsReady e g → Inv e (de_thread_begin e g).0
unfolding de_thread_begin zap_other_threads zap_counts
begin-Inv {e} {g} r =
    let opt = g.optimization_on in
    let life = λ (i : ℕ). zap_from-SameLife opt e g.size g.tasks i in
    let count = zap_from-members opt e g.leader g.size g.tasks in
    let same = members-zap_from opt e g.leader e g.size g.size g.tasks r.clean in
    let leader_clean : g.optimization_on ≡ true
        → (g.tasks g.leader).exiting ≡ not (is_running (g.tasks g.leader).progress) =
      λ o. r.clean o g.leader in
    record {
      tracked = λ o. ground (arith, r.tracked);
      exec_task = λ w. ground arith;
      leaders = λ i. ground (arith, r.leaders i, r.leaders e, (life i).group_leader);
      counting = λ w. ground (
        arith,
        r.leaders e,
        (life e).group_leader,
        count,
        same,
        r.leader_inside,
        r.leader_hashed,
        r.leader_running,
        leader_clean,
      );
      asleep = λ w a. ground arith;
      gone = λ w. ground arith;
      leader_asleep = λ w a. ground arith;
      led = λ w. ground arith;
      dying = λ i. ground (arith, r.dying i, r.dying e, (life i).progress, (life i).exit_state);
      other = λ w. ground arith;
      inside = ground (arith, r.leader_inside);
      parked = λ i. ground (arith, r.parked i, (life i).progress);
    }

left_over-none :
    (e : ℕ) (g : Group)
    → left_over e g ≡ 0
    → (i : ℕ) → i < g.size
    → i ≢ e
    → i ≢ g.leader
    → awaited g.optimization_on (g.tasks i) ≡ false
left_over-none e g none i h ne nl =
    let m = members-member (awaited g.optimization_on) e g.leader g.size g.tasks i h in ground arith

-- Where the group is ready for an exec (`IsReady`, with all its conditions: a leader that has
-- PF_EXITING when the switch is on is excluded), and whatever the order in which its threads run,
-- `de_thread` comes out of its waits only when no other thread but the leader is awaited, and the
-- leader, when it is another thread, is a zombie or dead. Awaited is a thread in the group; with the
-- switch on, one that has not come to the early wake-up.
pub de_thread-waits_for_all :
    {e : ℕ} {g k : Group}
    → IsReady e g
    → Reach e (de_thread_begin e g).0 k
    → k.waiter ≡ taken_over
    → ((i : ℕ) → i < k.size → i ≢ e → i ≢ k.leader → awaited k.optimization_on (k.tasks i) ≡ false)
      × ((e ≡ k.leader) ⊎ (is_alive (k.tasks k.leader).exit_state ≡ false))
de_thread-waits_for_all {e} {g} {k} r run w =
    let inv = Reach-Inv (begin-Inv r) run in
    (left_over-none e k (inv.gone (inr (inr w))), inv.led w)

pub left_over-some :
    (e : ℕ) (g : Group)
    → 0 < left_over e g
    → (i : ℕ) × (i < g.size)
      × (i ≢ e)
      × (i ≢ g.leader)
      × (awaited g.optimization_on (g.tasks i) ≡ true)
unfolding members
left_over-some e g some_left =
    let (i, h, positive) =
      total_pos (weight (awaited g.optimization_on) e g.leader) g.size g.tasks some_left in
    (i, h, ground arith, ground arith, ground arith)

-- No wake-up is lost where the group is ready for an exec (`IsReady`), with the switch off or on. While the
-- exec thread sleeps on `notify_count` and no one has woken it, the counter is the number of the
-- awaited threads without the leader, and there is one; while it sleeps on the leader, the leader is alive and will find -1.
pub de_thread-no_lost_wake_up :
    {e : ℕ} {g k : Group}
    → IsReady e g
    → Reach e (de_thread_begin e g).0 k
    → k.woken ≡ false
    → (k.waiter ≡ sleeping
        → (k.notify_count ≡ pos (left_over e k))
          × ((i : ℕ) × (i < k.size)
              × (i ≢ e)
              × (i ≢ k.leader)
              × (awaited k.optimization_on (k.tasks i) ≡ true)))
      × (k.waiter ≡ leader_sleeping
          → (k.notify_count ≡ negsuc 0) × ((k.tasks k.leader).exit_state ≡ ExitState.alive))
de_thread-no_lost_wake_up {e} {g} {k} r run awake =
    let inv = Reach-Inv (begin-Inv r) run in
    (
      (λ w. (inv.counting (inr w), left_over-some e k (inv.asleep w awake))),
      (λ w. inv.leader_asleep w awake),
    )
