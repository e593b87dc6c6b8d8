-- ===== src/Exec/Zombie.antt =====
-- The state of the leader when the exec thread takes over from it.
use mtech.Prelude.{
  ℕ, zero, suc, ◌<◌, ◌≡◌, ◌≢◌, inl, inr, refl, sym, ◌∙◌, Bool, true, false, some, arith, dec_lt,
}
use mtech.Exec.State.{
  ExitState, Task, Group, is_hashed, is_alive, is_zombie, taken_over, others_hashed,
  thread_group_empty,
}
use mtech.Exec.Exit.{
  get_signal_fatal, early_exit, unpark, exit_signals, exit_notify, exit_signal_struct, count_down,
}
use mtech.Exec.Dethread.{
  test_count, test_leader, resume, give_up, de_thread_begin, zap_other_threads, de_thread_end,
}
use mtech.Exec.System.{
  Step, early, deliver, awake, flag, notify, release, count_test, leader_test, wake_up, Reach,
  start, later,
}
use mtech.Exec.Zap.{zap_from-SameLife}
use mtech.Exec.Complete.{IsReady, begin-Inv, de_thread-waits_for_all}
use mtech.Exec.Waits.{Reach-Inv}
use mtech.Exec.TakeOver.{IsSucceeded, leave-IsSucceeded, de_thread_end-cases}

others_hashed-some :
    (i e n : ℕ) (tasks : ℕ → Task)
    → e < n
    → i ≢ e
    → is_hashed (tasks e).progress ≡ true
    → others_hashed i n tasks ≡ true
unfolding others_hashed
others_hashed-some i e zero tasks h ne x = absurd (omega arith)
others_hashed-some i e (suc n) tasks h ne x = elim (dec_lt e n) [
  | yes below ↦ ground (arith, others_hashed-some i e n tasks below ne x)
  | no above ↦ ground arith
]

-- The exec thread is in the group, and the leader, which is another thread, is not traced and not
-- dead: it becomes a zombie and stays one.
pub record IsUndead (e : ℕ) (g : Group) : Type 0 where
  pub inside : e < g.size
  pub hashed : is_hashed (g.tasks e).progress ≡ true
  pub other : e ≢ g.leader
  pub led : (g.tasks g.leader).group_leader ≡ g.leader
  pub untraced : (g.tasks g.leader).ptraced ≡ false
  pub undead : (g.tasks g.leader).exit_state ≢ ExitState.dead

not_empty : (e : ℕ) (g : Group) → IsUndead e g → thread_group_empty g.leader g ≡ false
unfolding thread_group_empty
not_empty e g u =
    ground
      (arith, others_hashed-some g.leader e g.size g.tasks u.inside (λ q. u.other (sym q)) u.hashed)

keeps-IsUndead :
    (e : ℕ) (g h : Group)
    → IsUndead e g
    → h.size ≡ g.size
    → h.leader ≡ g.leader
    → (h.tasks e).progress ≡ (g.tasks e).progress
    → (h.tasks g.leader).group_leader ≡ (g.tasks g.leader).group_leader
    → (h.tasks g.leader).ptraced ≡ (g.tasks g.leader).ptraced
    → (h.tasks g.leader).exit_state ≢ ExitState.dead
    → IsUndead e h
keeps-IsUndead e g h u size leader progress led traced undead = record {
  inside = ground (arith, u.inside);
  hashed = ground (arith, u.hashed);
  other = ground (arith, u.other);
  led = ground (arith, u.led);
  untraced = ground (arith, u.untraced);
  undead = ground arith;
}

early-IsUndead : (e i : ℕ) (g : Group) → i ≢ e → IsUndead e g → IsUndead e (early_exit i g)
unfolding early_exit count_down
early-IsUndead e i g ne u =
    keeps-IsUndead e g _ u (ground arith) (ground arith) (ground arith) (ground arith)
      (ground arith) (ground (arith, u.undead))

notify-IsUndead :
    (e i : ℕ) (answer : Bool) (g : Group)
    → i ≢ e
    → IsUndead e g
    → IsUndead e (exit_notify answer i g)
unfolding exit_notify
notify-IsUndead e i answer g ne u =
    keeps-IsUndead e g _ u (ground arith) (ground arith) (ground arith) (ground arith)
      (ground arith) (ground (arith, u.undead, u.led, u.untraced, not_empty e g u))

release-IsUndead :
    (e i : ℕ) (g : Group)
    → i ≢ e
    → i ≢ g.leader
    → IsUndead e g
    → IsUndead e (exit_signal_struct i g)
unfolding exit_signal_struct count_down
release-IsUndead e i g ne nl u =
    keeps-IsUndead e g _ u (ground arith) (ground arith) (ground arith) (ground arith)
      (ground arith) (ground (arith, u.undead))

Step-IsUndead : {e : ℕ} {g h : Group} → Step e g h → IsUndead e g → IsUndead e h
unfolding get_signal_fatal unpark exit_signals test_count test_leader resume give_up
Step-IsUndead {e} {g} (early i h ne p) u = early-IsUndead e i g ne u
Step-IsUndead {e} {g} (deliver i h ne p s x) u =
    keeps-IsUndead e g _ u refl refl (ground arith) (ground arith) (ground arith)
      (ground (arith, u.undead))
Step-IsUndead {e} {g} (awake i h ne p s) u =
    keeps-IsUndead e g _ u refl refl (ground arith) (ground arith) (ground arith)
      (ground (arith, u.undead))
Step-IsUndead {e} {g} (flag i h ne p) u =
    keeps-IsUndead e g _ u refl refl (ground arith) (ground arith) (ground arith)
      (ground (arith, u.undead))
Step-IsUndead {e} {g} (notify i answer h ne p) u = notify-IsUndead e i answer g ne u
Step-IsUndead {e} {g} (release i h ne nl p) u = release-IsUndead e i g ne nl u
Step-IsUndead {e} {g} (count_test w) u =
    keeps-IsUndead e g _ u (ground arith) (ground arith) (ground arith) (ground arith)
      (ground arith) (ground (arith, u.undead))
Step-IsUndead {e} {g} (leader_test w) u =
    keeps-IsUndead e g _ u (ground arith) (ground arith) (ground arith) (ground arith)
      (ground arith) (ground (arith, u.undead))
Step-IsUndead {e} {g} (wake_up w r) u =
    keeps-IsUndead e g _ u (ground arith) (ground arith) (ground arith) (ground arith)
      (ground arith) (ground (arith, u.undead))

Reach-IsUndead : {e : ℕ} {g k : Group} → Reach e g k → IsUndead e g → IsUndead e k
Reach-IsUndead start u = u
Reach-IsUndead (later r st) u = Step-IsUndead st (Reach-IsUndead r u)

begin-IsUndead : (e : ℕ) (g : Group) → IsUndead e g → IsUndead e (de_thread_begin e g).0
unfolding de_thread_begin zap_other_threads
begin-IsUndead e g u =
    let at_e = zap_from-SameLife g.optimization_on e g.size g.tasks e in
    let at_l = zap_from-SameLife g.optimization_on e g.size g.tasks g.leader in
    keeps-IsUndead e g _ u (ground arith) (ground arith) (ground (arith, at_e.progress))
      (ground (arith, at_l.group_leader)) (ground (arith, at_l.ptraced))
      (ground (arith, u.undead, at_l.exit_state))

undead-is_zombie : (x : ExitState) → is_alive x ≡ false → x ≢ ExitState.dead → is_zombie x ≡ true
undead-is_zombie ExitState.alive h n = absurd (ground arith)
undead-is_zombie ExitState.zombie h n = refl
undead-is_zombie ExitState.dead h n = absurd (n refl)

-- A thread `e` of the group that is not its leader, and comes out of the waits of `de_thread`, does
-- not stop on BUG where the group is ready for an exec (`IsReady`) and the leader is at the start
-- neither traced nor dead: in every run the leader is a zombie then, since it does not reap itself
-- while `e` is there. `e` ends `de_thread` as the leader: it has the leader's number and start time
-- and the leader has its own, it leads itself and signals SIGCHLD; the old leader is dead and
-- released; the other threads keep their numbers; with the switch on, all threads in the group are
-- led by `e`; and the mark of an exec and the counter are reset.
pub de_thread_end-takes_over :
    {e : ℕ} {g k : Group}
    → IsReady e g
    → IsUndead e g
    → Reach e (de_thread_begin e g).0 k
    → k.waiter ≡ taken_over
    → (k' : Group) × (de_thread_end e k ≡ some k') × IsSucceeded e k k'
de_thread_end-takes_over {e} {g} {k} ready u r w =
    let v = Reach-IsUndead r (begin-IsUndead e g u) in
    let zombie : is_zombie (k.tasks k.leader).exit_state ≡ true =
      elim (de_thread-waits_for_all ready r w).1 [
        | inl same ↦ absurd (v.other same)
        | inr over ↦ undead-is_zombie _ over v.undead
      ] in
    let led = (Reach-Inv (begin-Inv ready) r).leaders e in
    (_, de_thread_end-cases e k v.other led ∙ rw (zombie) refl, leave-IsSucceeded e k v.other)
