-- ===== src/Hook/Balance.antt =====
-- Balanced calls leave the tracer's stack as they found it; a call that is not closed does not.
use mtech.Prelude.{ℕ, ◌+◌, ◌≤◌, ◌<◌, ◌≡◌, refl, ap, ◌∙◌, true, List, [], ◌∷◌, length, arith}
use mtech.Prelude.Int.{ℤ, pos, ◌+ℤ◌, ◌-ℤ◌, eqb_ℤ}
use mtech.Hook.State.{Name, FuncTimer, State, Current, max_depth, starts_with}
use mtech.Hook.Trace.{my_enter, my_exit, pop, credit, write_line, trace_exec_enter, trace_exec_exit}
use mtech.Hook.Tree.{
  Call, Calls, node, nil, cons, run, run_all, height, heights, callee_time, inclusive,
}

pub starts_with_self : (name : Name) → starts_with name name ≡ true
unfolding starts_with
starts_with_self [] = refl
starts_with_self (c ∷ name) = ground (arith, starts_with_self name)

-- The module is loaded and traces the process.
pub record IsTracing (current : Current) (s : State) : Type 0 where
  pub hooked : s.hooked ≡ true
  pub tracked : eqb_ℤ (pos current.tgid) s.tracked_pid ≡ true

pub credit_cons :
    (t : ℤ) (f : FuncTimer) (fs : List FuncTimer)
    → credit t (f ∷ fs) ≡ record f { child_time = f.child_time +ℤ t } ∷ fs
unfolding credit
credit_cons t f fs = refl

module _ (current : Current) where
  -- The parts of the state that no line of the log concerns.
  pub record Same (s s' : State) (stack : List FuncTimer) : Type 0 where
    pub hooked : s'.hooked ≡ s.hooked
    pub tracked : s'.tracked_pid ≡ s.tracked_pid
    pub reports : s'.reports ≡ s.reports
    pub stack_is : s'.stack ≡ stack

  pub enter-Same :
      (func : Name) (now : ℕ) (s : State)
      → IsTracing current s
      → length s.stack < max_depth
      → Same s
          (trace_exec_enter current func now s)
          (record { fn_name = func; start = now; child_time = pos 0 } ∷ s.stack)
  unfolding trace_exec_enter my_enter write_line
  enter-Same func now s t h = ground arith

  pub exit-Same :
      (func : Name) (now from : ℕ) (child_time : ℤ) (fs : List FuncTimer) (s : State)
      → IsTracing current s
      → s.stack ≡ record { fn_name = func; start = from; child_time = child_time } ∷ fs
      → Same s (trace_exec_exit current func now s) (credit (pos now -ℤ pos from) fs)
  unfolding trace_exec_exit my_exit pop write_line
  exit-Same func now from child_time fs s t e =
      ground (arith, starts_with_self func, ap (length {A = FuncTimer}) e)

  pub Same-IsTracing :
      {s s' : State} {fs : List FuncTimer}
      → Same s s' fs
      → IsTracing current s
      → IsTracing current s'
  Same-IsTracing same t = record {
    hooked = same.hooked ∙ t.hooked;
    tracked = ap (eqb_ℤ (pos current.tgid)) same.tracked ∙ t.tracked;
  }

  Same-trans :
      {s s' s'' : State} {fs gs : List FuncTimer} → Same s s' fs → Same s' s'' gs → Same s s'' gs
  Same-trans a b = record {
    hooked = b.hooked ∙ a.hooked;
    tracked = b.tracked ∙ a.tracked;
    reports = b.reports ∙ a.reports;
    stack_is = b.stack_is;
  }

  mutual
    unfolding run run_all height heights callee_time

    pub run-Same :
        (c : Call) (s : State)
        → IsTracing current s
        → length s.stack + height c ≤ max_depth
        → Same s (run current c s) (credit (inclusive c) s.stack)
    run-Same (node func from callees till) s t h =
        let a = enter-Same func from s t (omega arith) in
        let t1 = Same-IsTracing a t in
        let b =
          run_all-Same callees (trace_exec_enter current func from s) _ s.stack t1 a.stack_is
            (omega arith) in
        let c = exit-Same func till from _ s.stack _ (Same-IsTracing b t1) b.stack_is in
        Same-trans a (Same-trans b c)

    pub run_all-Same :
        (cs : Calls) (s : State) (f : FuncTimer) (fs : List FuncTimer)
        → IsTracing current s
        → s.stack ≡ f ∷ fs
        → length fs + 1 + heights cs ≤ max_depth
        → Same s (run_all current cs s) (record f { child_time = callee_time cs f.child_time } ∷ fs)
    run_all-Same nil s f fs t e h = record {
      hooked = refl;
      tracked = refl;
      reports = refl;
      stack_is = e;
    }
    run_all-Same (cons c cs) s f fs t e h =
        let n = ap (length {A = FuncTimer}) e in
        let a = run-Same c s t (omega (arith, n)) in
        let top = a.stack_is ∙ ap (credit (inclusive c)) e ∙ credit_cons (inclusive c) f fs in
        let b = run_all-Same cs (run current c s) _ fs (Same-IsTracing a t) top (omega arith) in
        Same-trans a b
