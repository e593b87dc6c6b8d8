-- ===== src/Exec/Ends.antt =====
-- The waits of `de_thread` come to an end.
use mtech.Prelude.{
  ℕ, suc, ◌+◌, ◌*◌, ◌≤◌, ◌<◌, ◌≡◌, ◌≢◌, ◌⊎◌, inl, inr, refl, Bool, true, false, arith,
}
use mtech.Exec.State.{
  Progress, Waiter, testing, sleeping, leader_testing, leader_sleeping, taken_over, killed,
  finished, Group, is_alive,
}
use mtech.Exec.Exit.{}
use mtech.Exec.Dethread.{de_thread_begin, zap_other_threads}
use mtech.Exec.System.{
  Step, early, flag, notify, release, count_test, leader_test, wake_up, Reach, start, later,
}
use mtech.Exec.Invariant.{Inv}
use mtech.Exec.Waits.{Reach-Inv}
use mtech.Exec.Rank.{rank, Step-rank, rank_le}
use mtech.Exec.Complete.{IsReady, begin-Inv, left_over-some}

-- The exec thread is out of its waits.
abbrev pub is_over : Waiter → Bool
is_over testing = false
is_over sleeping = false
is_over leader_testing = false
is_over leader_sleeping = false
is_over _ = true

pub run_length : {e : ℕ} {g h : Group} → Reach e g h → ℕ
run_length start = 0
run_length (later r st) = suc (run_length r)

run_length-rank : {e : ℕ} {g h : Group} (r : Reach e g h) → run_length r + rank h ≤ rank g
unfolding run_length
run_length-rank start = omega arith
run_length-rank (later r st) = omega (arith, run_length-rank r, Step-rank st)

begin-size : (e : ℕ) (g : Group) → (de_thread_begin e g).0.size ≡ g.size
unfolding de_thread_begin zap_other_threads
begin-size e g = ground arith

-- A thread that is in the group and does not sleep.
abbrev is_free : Progress → Bool
is_free Progress.parked = false
is_free Progress.released = false
is_free _ = true

-- A thread in the group that does not sleep, other than the exec thread, has a step; a leader has one while it is alive.
free-Step :
    (e : ℕ) (g : Group)
    → Inv e g
    → (i : ℕ) (p : Progress) → i < g.size
    → i ≢ e
    → (i ≢ g.leader) ⊎ (is_alive (g.tasks i).exit_state ≡ true)
    → is_free (g.tasks i).progress ≡ true
    → (g.tasks i).progress ≡ p
    → (h : Group) × Step e g h
free-Step e g inv i Progress.running h ne l x p = (_, early i h ne p)
free-Step e g inv i Progress.parked h ne l x p = absurd (ground arith)
free-Step e g inv i Progress.entered h ne l x p = (_, flag i h ne p)
free-Step e g inv i Progress.flagged h ne l x p = (_, notify i true h ne p)
free-Step e g inv i Progress.notified h ne l x p =
    (_, release i h ne (ground (arith, inv.dying i)) p)
free-Step e g inv i Progress.released h ne l x p = absurd (ground arith)

waiting-Step :
    (e : ℕ) (g : Group)
    → Inv e g
    → (w : Waiter) (woken : Bool) → g.waiter ≡ w
    → g.woken ≡ woken
    → is_over w ≡ false
    → (h : Group) × Step e g h
waiting-Step e g inv testing woken w a o = (_, count_test w)
waiting-Step e g inv leader_testing woken w a o = (_, leader_test w)
waiting-Step e g inv sleeping true w a o = (_, wake_up (inl w) (inl a))
waiting-Step e g inv leader_sleeping true w a o = (_, wake_up (inr w) (inl a))
waiting-Step e g inv sleeping false w a o =
    let (i, h, ne, nl, x) = left_over-some e g (inv.asleep w a) in
    free-Step e g inv i _ h ne (inl nl) (ground (arith, inv.parked i)) refl
waiting-Step e g inv leader_sleeping false w a o =
    let (count, alive) = inv.leader_asleep w a in
    free-Step e g inv g.leader _ inv.inside (ground (arith, inv.other (inr w))) (inr (ground arith))
      (ground (arith, inv.dying g.leader, inv.parked g.leader)) refl
waiting-Step e g inv taken_over woken w a o = absurd (ground arith)
waiting-Step e g inv finished woken w a o = absurd (ground arith)
waiting-Step e g inv killed woken w a o = absurd (ground arith)

-- Where the group is ready for an exec (`IsReady`: with the switch on, the process is tracked,
-- PF_EXITING tells who has come to the early wake-up, and the leader has not), `de_thread` waits
-- neither for ever nor in a state that no one can leave. From its first test, the group and the exec thread take at most 24 steps for each thread and 13 more,
-- and until the exec thread is out of its waits or has given up there is a next step.
pub de_thread-ends :
    {e : ℕ} {g k : Group}
    → IsReady e g
    → (r : Reach e (de_thread_begin e g).0 k)
    → (run_length r ≤ 24 * g.size + 13) × (is_over k.waiter ≡ false → (h : Group) × Step e k h)
de_thread-ends {e} {g} {k} ready r = (
  (let b = begin-size e g in omega (arith, run_length-rank r, rank_le (de_thread_begin e g).0)),
  waiting-Step e k (Reach-Inv (begin-Inv ready) r) k.waiter k.woken refl refl,
)
