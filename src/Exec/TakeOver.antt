-- ===== src/Exec/TakeOver.antt =====
-- What a thread that execs takes over from the leader of its group.
use mtech.Prelude.{
  ℕ, zero, suc, ◌<◌, ◌≡◌, ◌≢◌, ◌∙◌, sym, subst, refl, Bool-cases, inl, inr, true, none, some, not,
  ◌&&◌, ◌==◌, ltb, if◌then◌else◌, arith, dec_lt,
}
use mathlib.Core.Option.{some-injective}
use mtech.Prelude.Int.{pos, negsuc}
use mtech.Exec.State.{ExitState, Progress, Task, Group, set_task, is_hashed, is_zombie}
use mtech.Exec.Dethread.{
  sigchld, exchange_tids, assume_identity, redirect, hand_over, take_over, leave, de_thread_end,
}
use mtech.Exec.Members.{in_group}

redirect-at :
    (e l n : ℕ) (tasks : ℕ → Task) (i : ℕ)
    → redirect e l n tasks i ≡ (
        if ltb i n && (not (i == e) && (not (i == l) && is_hashed (tasks i).progress))
        then record (tasks i) { group_leader = e }
        else tasks i)
unfolding redirect
redirect-at e l zero tasks i = ground arith
redirect-at e l (suc n) tasks i = elim (dec_lt i n) [
  | yes below ↦ ground (arith, redirect-at e l n tasks i)
  | no above ↦ ground (arith, redirect-at e l n tasks i)
]

module _ (e : ℕ) (g : Group) (ne : e ≢ g.leader) where
  assume_identity_self : (assume_identity e g).tasks e ≡ record (g.tasks e) {
    pid = (g.tasks g.leader).pid;
    start_time = (g.tasks g.leader).start_time;
    group_leader = e;
  }
  unfolding assume_identity exchange_tids
  assume_identity_self = ground arith

  assume_identity-leader :
      (assume_identity e g).tasks g.leader
      ≡ record (g.tasks g.leader) { pid = (g.tasks e).pid; group_leader = e }
  unfolding assume_identity exchange_tids
  assume_identity-leader = ground arith

  assume_identity-other : (i : ℕ) → i ≢ e → i ≢ g.leader → (assume_identity e g).tasks i ≡ g.tasks i
  unfolding assume_identity exchange_tids
  assume_identity-other i a b = ground arith

  -- The group behind `take_over`, where it passes the test.
  abbrev pub taken : Group
  taken =
      let l = g.leader in
      let g' = hand_over e g in
      set_task l (record (g'.tasks l) { exit_state = ExitState.dead; progress = Progress.released })
        g'

  hand_over-leader : (hand_over e g).tasks g.leader ≡ record (g.tasks g.leader) {
    pid = (g.tasks e).pid;
    group_leader = e;
    exit_signal = negsuc 0;
  }
  unfolding hand_over
  hand_over-leader = ground (
    arith,
    redirect-at e g.leader g.size (assume_identity e g).tasks g.leader,
    assume_identity-leader,
  )

  hand_over_self : (hand_over e g).tasks e ≡ record (g.tasks e) {
    pid = (g.tasks g.leader).pid;
    start_time = (g.tasks g.leader).start_time;
    group_leader = e;
    exit_signal = sigchld;
  }
  unfolding hand_over
  hand_over_self =
      ground
        (arith, redirect-at e g.leader g.size (assume_identity e g).tasks e, assume_identity_self)

  hand_over-other :
      (i : ℕ)
      → i ≢ e
      → i ≢ g.leader
      → (hand_over e g).tasks i ≡ (
          if g.optimization_on && (ltb i g.size && is_hashed (g.tasks i).progress)
          then record (g.tasks i) { group_leader = e }
          else g.tasks i)
  unfolding hand_over
  hand_over-other i a b = ground (
    arith,
    redirect-at e g.leader g.size (assume_identity e g).tasks i,
    assume_identity-other i a b,
  )

  take_over-cases :
      take_over e g ≡ (if is_zombie (g.tasks g.leader).exit_state then some taken else none)
  unfolding take_over
  take_over-cases = ground (arith, hand_over-leader)

  -- The end of `de_thread` stops on BUG exactly where the leader is no zombie.
  pub de_thread_end-cases :
      (g.tasks e).group_leader ≡ g.leader
      → de_thread_end e g ≡ (
          if is_zombie (g.tasks g.leader).exit_state
          then some (leave e (record taken { leader = e }))
          else none)
  unfolding de_thread_end
  de_thread_end-cases led = ground (arith, take_over-cases)

-- What a group is for a thread `e` that has become its leader.
pub record IsSucceeded (e : ℕ) (g k : Group) : Type 0 where
  pub leader : k.leader ≡ e
  pub pid : (k.tasks e).pid ≡ (g.tasks g.leader).pid
  pub old_pid : (k.tasks g.leader).pid ≡ (g.tasks e).pid
  pub start_time : (k.tasks e).start_time ≡ (g.tasks g.leader).start_time
  pub exit_signal : (k.tasks e).exit_signal ≡ sigchld
  pub dead : (k.tasks g.leader).exit_state ≡ ExitState.dead
  pub released : (k.tasks g.leader).progress ≡ Progress.released
  pub other_pids : (i : ℕ) → i ≢ e → i ≢ g.leader → (k.tasks i).pid ≡ (g.tasks i).pid
  pub other_progress :
      (i : ℕ)
      → i ≢ e
      → i ≢ g.leader
      → ((k.tasks i).progress ≡ (g.tasks i).progress) × ((k.tasks i).sigkill ≡ (g.tasks i).sigkill)
  pub led_self : (k.tasks e).group_leader ≡ e
  pub led :
      g.optimization_on ≡ true
      → (i : ℕ) → i < g.size
      → in_group (k.tasks i) ≡ true
      → (k.tasks i).group_leader ≡ e
  pub no_exec : k.group_exec_task ≡ none
  pub no_count : k.notify_count ≡ pos 0

pub leave-IsSucceeded :
    (e : ℕ) (g : Group) (ne : e ≢ g.leader)
    → IsSucceeded e g (leave e (record (taken e g ne) { leader = e }))
unfolding leave
leave-IsSucceeded e g ne =
    let self = hand_over_self e g ne in
    let old = hand_over-leader e g ne in
    record {
      leader = ground arith;
      pid = ground (arith, self);
      old_pid = ground (arith, old);
      start_time = ground (arith, self);
      exit_signal = ground (arith, self);
      dead = ground arith;
      released = ground arith;
      other_pids = λ i a b. ground (arith, hand_over-other e g ne i a b);
      other_progress = λ i a b. ground (arith, hand_over-other e g ne i a b);
      led_self = ground (arith, self);
      led = λ on i h x. ground (arith, self, old, hand_over-other e g ne i);
      no_exec = ground arith;
      no_count = ground arith;
    }

pub ended-IsSucceeded :
    (e : ℕ) (g : Group) {k : Group}
    → e ≢ g.leader
    → (g.tasks e).group_leader ≡ g.leader
    → de_thread_end e g ≡ some k
    → IsSucceeded e g k
ended-IsSucceeded e g {k} ne led ended =
    let cases = de_thread_end-cases e g ne led in
    elim (Bool-cases (is_zombie (g.tasks g.leader).exit_state)) [
      | inl zombie ↦
          let same : some (leave e (record (taken e g ne) { leader = e })) ≡ some k =
            sym (cases ∙ rw (zombie) refl) ∙ ended in
          subst (IsSucceeded e g) (some-injective _ _ same) (leave-IsSucceeded e g ne)
      | inr no_zombie ↦ absurd (ground arith)
    ]
