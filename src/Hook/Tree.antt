-- ===== src/Hook/Tree.antt =====
-- Calls of traced functions as trees: each function enters, calls others, and leaves.
use mtech.Prelude.{ℕ, suc, max, List, [], ◌∷◌, ◌++◌}
use mtech.Prelude.Int.{ℤ, pos, ◌+ℤ◌, ◌-ℤ◌}
use mtech.Hook.State.{Name, LogLine, entered, left, State, Current}
use mtech.Hook.Trace.{trace_exec_enter, trace_exec_exit}

mutual
  -- The times are those that `ktime_get` gives at the two ends.
  pub data Call : Type 0 where
    node : (func : Name) (from : ℕ) (callees : Calls) (till : ℕ) → Call

  pub data Calls : Type 0 where
    nil : Calls
    cons : Call → Calls → Calls

abbrev pub inclusive : Call → ℤ
inclusive (node func from callees till) = pos till -ℤ pos from

unfoldable mutual
  -- The calls that a process makes on the tracer.
  pub run : Current → Call → State → State
  run current (node func from callees till) s =
      trace_exec_exit current func till
        (run_all current callees (trace_exec_enter current func from s))

  pub run_all : Current → Calls → State → State
  run_all current nil s = s
  run_all current (cons c cs) s = run_all current cs (run current c s)

unfoldable mutual
  pub height : Call → ℕ
  height (node func from callees till) = suc (heights callees)

  pub heights : Calls → ℕ
  heights nil = 0
  heights (cons c cs) = max (height c) (heights cs)

-- The time that the callees take.
unfoldable pub callee_time : Calls → ℤ → ℤ
callee_time nil t = t
callee_time (cons c cs) t = callee_time cs (t +ℤ inclusive c)

unfoldable mutual
  -- The lines of a call at a depth: its own two lines around those of its callees, with the exclusive
  -- time, which is the inclusive time less that of the callees.
  pub lines : Current → ℕ → Call → List LogLine
  lines current depth (node func from callees till) =
      entered current.pid depth func
      ∷ (lines_all current (suc depth) callees
          ++ left current.pid depth func (pos till -ℤ pos from)
              (pos till -ℤ pos from -ℤ callee_time callees (pos 0))
            ∷ [])

  pub lines_all : Current → ℕ → Calls → List LogLine
  lines_all current depth nil = []
  lines_all current depth (cons c cs) = lines current depth c ++ lines_all current depth cs
