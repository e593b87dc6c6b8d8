-- ===== src/Hook/Trace.antt =====
-- `my_enter`, `my_exit`, and the wrappers that the kernel's functions call.
use mtech.Prelude.{ℕ, ◌+◌, ◌-◌, not, List, [], ◌∷◌, ◌++◌, ltb, leb, if◌then◌else◌, length}
use mtech.Prelude.Int.{ℤ, pos, ◌+ℤ◌, ◌-ℤ◌, eqb_ℤ}
use mtech.Hook.State.{
  Name, FuncTimer, LogLine, entered, left, stack_overflow, stack_underflow, stack_corrupted, Report,
  State, Current, max_depth, log_buf_size, line_length, starts_with,
}

abbrev pub report : Report → State → State
report r s = record s { reports = s.reports ++ r ∷ [] }

-- `log_offset += sprintf(log_buffer + log_offset, ...)`, while 256 bytes are free.
unfoldable pub write_line : LogLine → State → State
write_line line s =
    if ltb s.log_offset (log_buf_size - 256)
    then record s { log = s.log ++ line ∷ []; log_offset = s.log_offset + line_length line }
    else s

unfoldable pub my_enter : Current → Name → ℕ → State → State
my_enter current func now s =
    if not (eqb_ℤ (pos current.tgid) s.tracked_pid)
    then s
    else (if leb max_depth (length s.stack)
        then report stack_overflow s
        else write_line (entered current.pid (length s.stack) func) (record s {
          stack = record { fn_name = func; start = now; child_time = pos 0 } ∷ s.stack;
        }))

-- `stack[top].child_time += inclusive`, if there is a frame.
unfoldable pub credit : ℤ → List FuncTimer → List FuncTimer
credit t [] = []
credit t (f ∷ fs) = record f { child_time = f.child_time +ℤ t } ∷ fs

-- The rest of `my_exit` behind the test of the process.
unfoldable pub pop : Current → Name → ℕ → List FuncTimer → State → State
pop current func now [] s = report stack_underflow s
pop current func now (f ∷ fs) s =
    if not (starts_with f.fn_name func)
    then report (stack_corrupted func f.fn_name) s
    else (let inclusive = pos now -ℤ pos f.start in
        let logged =
          write_line (left current.pid (length fs) f.fn_name inclusive (inclusive -ℤ f.child_time))
            s in
        record logged { stack = credit inclusive fs })

unfoldable pub my_exit : Current → Name → ℕ → State → State
my_exit current func now s =
    if not (eqb_ℤ (pos current.tgid) s.tracked_pid) then s else pop current func now s.stack s

-- `TRACE_EXEC_START` and `TRACE_EXEC_END`: the hook is called if the module has set it.
unfoldable pub trace_exec_enter : Current → Name → ℕ → State → State
trace_exec_enter current func now s = if s.hooked then my_enter current func now s else s

unfoldable pub trace_exec_exit : Current → Name → ℕ → State → State
trace_exec_exit current func now s = if s.hooked then my_exit current func now s else s
