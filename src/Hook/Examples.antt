-- ===== src/Hook/Examples.antt =====
-- Runs of the tracer, and its theorems at concrete inputs.
use mtech.Prelude.{ℕ, zero, suc, ◌+◌, ◌-◌, ◌≤◌, ◌≡◌, refl, true, false, List, ◌∷◌, [], ◌++◌, arith}
use mtech.Prelude.Int.{pos, ◌-ℤ◌, ◌+ℤ◌}
use mtech.Hook.State.{
  Name, FuncTimer, entered, left, State, Current, log_buf_size, line_length, make_indent,
  signed_width, starts_with,
}
use mtech.Hook.Trace.{my_enter, my_exit, pop, credit, write_line, trace_exec_enter, trace_exec_exit}
use mtech.Hook.Tree.{
  Call, node, nil, cons, run, run_all, lines, lines_all, callee_time, height, heights,
}
use mtech.Hook.Balance.{IsTracing}
use mtech.Hook.Log.{size, run-logs_tree}
use mtech.Hook.Buffer.{my_exit-overruns}

abbrev bash : Current
bash = record { pid = 52; tgid = 50 }

abbrev count : Name
count = b'c' ∷ b'o' ∷ b'u' ∷ b'n' ∷ b't' ∷ []

abbrev de_thread : Name
de_thread = b'd' ∷ b'e' ∷ b'_' ∷ b't' ∷ b'h' ∷ b'r' ∷ b'e' ∷ b'a' ∷ b'd' ∷ []

abbrev tracing : State
tracing = record {
  tracked_pid = pos 50;
  optimization_on = false;
  stack = [];
  log = [];
  log_offset = 0;
  reports = [];
  hooked = true;
}

-- `count` within `de_thread`: 30 ns, 10 of them in the callee.
abbrev nested : Call
nested = node de_thread 100 (cons (node count 110 nil 120) nil) 130

abbrev traced : IsTracing bash tracing
traced = record { hooked = refl; tracked = refl }

nested_log :
    (run bash nested tracing).log
    ≡ entered 52 0 de_thread
      ∷ entered 52 1 count
      ∷ left 52 1 count (pos 10) (pos 10)
      ∷ left 52 0 de_thread (pos 30) (pos 20)
      ∷ []
unfolding run run_all trace_exec_enter trace_exec_exit my_enter my_exit pop credit write_line
    starts_with ◌-ℤ◌ ◌+ℤ◌ line_length make_indent signed_width
nested_log = refl

run-logs_tree_example :
    ((run bash nested tracing).log ≡ [] ++ lines bash 0 nested)
    × ((run bash nested tracing).log_offset ≡ 0 + size (lines bash 0 nested))
unfolding height heights size lines lines_all line_length make_indent signed_width callee_time ◌-ℤ◌
    ◌+ℤ◌
run-logs_tree_example = run-logs_tree bash nested tracing traced (omega arith) (omega arith)

abbrev frame : FuncTimer
frame = record { fn_name = de_thread; start = 100; child_time = pos 0 }

abbrev inside : State
inside = record tracing { stack = frame ∷ [] }

abbrev repeat : ℕ → FuncTimer → List FuncTimer
repeat zero f = []
repeat (suc n) f = f ∷ repeat n f

abbrev long : Name
long = de_thread ++ count

abbrev deep : State
deep = record tracing {
  stack = record { fn_name = long; start = 100; child_time = pos 0 } ∷ repeat 99 frame;
  log_offset = log_buf_size - 257;
}

my_exit-overruns_example : log_buf_size ≤ (my_exit bash long 130 deep).log_offset
unfolding starts_with
my_exit-overruns_example =
    my_exit-overruns bash long 130 deep (record { fn_name = long; start = 100; child_time = pos 0 })
      (repeat 99 frame) (record { hooked = refl; tracked = refl }) refl (omega arith) refl
      (omega arith) refl
