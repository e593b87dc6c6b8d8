-- ===== src/Hook/Log.antt =====
-- The log of a balanced call is its tree of calls.
use mtech.Prelude.{
  ℕ, suc, ◌+◌, ◌-◌, ◌≤◌, ◌<◌, ◌≡◌, refl, ap, ◌∙◌, sym, List, [], ◌∷◌, ◌++◌, length, arith,
}
use mathlib.Core.List.{append_assoc, append-nil}
use mtech.Prelude.Int.{ℤ, pos, ◌-ℤ◌}
use mtech.Hook.State.{
  Name, FuncTimer, LogLine, entered, left, State, Current, max_depth, log_buf_size, line_length,
}
use mtech.Hook.Trace.{my_enter, my_exit, pop, credit, write_line, trace_exec_enter, trace_exec_exit}
use mtech.Hook.Tree.{
  Call, Calls, node, nil, cons, run, run_all, height, heights, callee_time, inclusive, lines,
  lines_all,
}
use mtech.Hook.Balance.{
  IsTracing, enter-Same, run-Same, run_all-Same, Same-IsTracing, starts_with_self, credit_cons,
}

-- The bytes of some lines.
unfoldable pub size : List LogLine → ℕ
size [] = 0
size (l ∷ ls) = line_length l + size ls

size-append : (ls ms : List LogLine) → size (ls ++ ms) ≡ size ls + size ms
unfolding size
size-append [] ms = omega arith
size-append (l ∷ ls) ms = omega (arith, size-append ls ms)

line_length_pos : (l : LogLine) → 0 < line_length l
unfolding line_length
line_length_pos (entered p d f) = omega arith
line_length_pos (left p d f i e) = omega arith

-- The state has taken some lines into its log.
pub record Logged (s s' : State) (ls : List LogLine) : Type 0 where
  pub log_is : s'.log ≡ s.log ++ ls
  pub offset_is : s'.log_offset ≡ s.log_offset + size ls

-- The lines fit, with the 256 bytes that the tracer keeps free.
abbrev pub Fits : State → List LogLine → Type 0
Fits s ls = s.log_offset + size ls ≤ log_buf_size - 256

Logged-nil : (s : State) → Logged s s []
unfolding size
Logged-nil s = record { log_is = sym (append-nil s.log); offset_is = omega arith }

Logged-trans :
    {s s' s'' : State} {ls ms : List LogLine}
    → Logged s s' ls
    → Logged s' s'' ms
    → Logged s s'' (ls ++ ms)
Logged-trans {s} {ls = ls} {ms = ms} a b = record {
  log_is = b.log_is ∙ ap (λ (xs : List LogLine). xs ++ ms) a.log_is ∙ append_assoc s.log ls ms;
  offset_is = omega (arith, a.offset_is, b.offset_is, size-append ls ms);
}

module _ (current : Current) where
  enter-Logged :
      (func : Name) (now : ℕ) (s : State)
      → IsTracing current s
      → length s.stack < max_depth
      → s.log_offset < log_buf_size - 256
      → Logged s
          (trace_exec_enter current func now s)
          (entered current.pid (length s.stack) func ∷ [])
  unfolding trace_exec_enter my_enter write_line size
  enter-Logged func now s t h fits = ground arith

  exit-Logged :
      (func : Name) (now from : ℕ) (child_time : ℤ) (fs : List FuncTimer) (s : State)
      → IsTracing current s
      → s.stack ≡ record { fn_name = func; start = from; child_time = child_time } ∷ fs
      → s.log_offset < log_buf_size - 256
      → Logged s (trace_exec_exit current func now s) (
          left current.pid
            (length fs)
            func
            (pos now -ℤ pos from)
            (pos now -ℤ pos from -ℤ child_time)
          ∷ [])
  unfolding trace_exec_exit my_exit pop write_line size
  exit-Logged func now from child_time fs s t e fits =
      ground (arith, starts_with_self func, ap (length {A = FuncTimer}) e)

  mutual
    unfolding run run_all height heights callee_time lines lines_all size

    run-Logged :
        (c : Call) (s : State) (depth : ℕ)
        → IsTracing current s
        → length s.stack ≡ depth
        → depth + height c ≤ max_depth
        → Fits s (lines current depth c)
        → Logged s (run current c s) (lines current depth c)
    run-Logged (node func from callees till) s depth t d h fits =
        let s1 = trace_exec_enter current func from s in
        let kids = lines_all current (suc depth) callees in
        let t_in = pos till -ℤ pos from in
        let t_out = t_in -ℤ callee_time callees (pos 0) in
        let first = entered current.pid depth func in
        let last = left current.pid depth func t_in t_out in
        let sizes = size-append kids (last ∷ []) in
        let some_left = line_length_pos last in
        let some_first = line_length_pos first in
        let a = rw d at (enter-Logged func from s t (omega arith) (omega (arith, sizes))) in
        let same = enter-Same current func from s t (omega arith) in
        let t1 = Same-IsTracing current same t in
        let b =
          run_all-Logged callees s1 _ s.stack (suc depth) t1 same.stack_is (omega arith)
            (omega arith) (omega (arith, sizes, a.offset_is)) in
        let same_all = run_all-Same current callees s1 _ s.stack t1 same.stack_is (omega arith) in
        let t2 = Same-IsTracing current same_all t1 in
        let c = rw d at (
          exit-Logged func till from _ s.stack (run_all current callees s1) t2 same_all.stack_is
            (omega (arith, sizes, a.offset_is, b.offset_is))) in
        Logged-trans a (Logged-trans b c)

    run_all-Logged :
        (cs : Calls) (s : State) (f : FuncTimer) (fs : List FuncTimer) (depth : ℕ)
        → IsTracing current s
        → s.stack ≡ f ∷ fs
        → length fs + 1 ≡ depth
        → depth + heights cs ≤ max_depth
        → Fits s (lines_all current depth cs)
        → Logged s (run_all current cs s) (lines_all current depth cs)
    run_all-Logged nil s f fs depth t e d h fits = Logged-nil s
    run_all-Logged (cons c cs) s f fs depth t e d h fits =
        let n = ap (length {A = FuncTimer}) e in
        let both = size-append (lines current depth c) (lines_all current depth cs) in
        let a = run-Logged c s depth t (omega (arith, n)) (omega arith) (omega (arith, both)) in
        let same = run-Same current c s t (omega (arith, n)) in
        let top = same.stack_is ∙ ap (credit (inclusive c)) e ∙ credit_cons (inclusive c) f fs in
        let b =
          run_all-Logged cs (run current c s) _ fs depth (Same-IsTracing current same t) top d
            (omega arith) (omega (arith, both, a.offset_is)) in
        Logged-trans a b

  -- With room for the nesting and for the lines, what a call of a traced function adds to the log is
  -- the tree of the calls below it, depth first: each function's two lines around those of its
  -- callees, with the inclusive time, and the exclusive time that is the inclusive time less the
  -- sum of the callees' inclusive times. The offset grows by the length of these lines.
  pub run-logs_tree :
      (c : Call) (s : State)
      → IsTracing current s
      → length s.stack + height c ≤ max_depth
      → Fits s (lines current (length s.stack) c)
      → ((run current c s).log ≡ s.log ++ lines current (length s.stack) c)
        × ((run current c s).log_offset ≡ s.log_offset + size (lines current (length s.stack) c))
  run-logs_tree c s t h fits =
      let r = run-Logged c s (length s.stack) t refl h fits in (r.log_is, r.offset_is)
