-- ===== src/Hook/State.antt =====
-- The globals of cs614/multi_thread_opt/exec_hook.c.
use mtech.Prelude.{
  ℕ, zero, suc, ◌+◌, ◌*◌, ◌/◌, Bool, true, false, List, [], ◌∷◌, ltb, ◌==◌, ◌&&◌, if◌then◌else◌,
  length, max,
}
use mtech.Prelude.Int.{ℤ, pos, negsuc}

-- The bytes of a name, less the closing NUL.
abbrev pub Name : Type 0
Name = List ℕ

-- `struct func_timer`
pub record FuncTimer : Type 0 where
  pub fn_name : Name
  pub start : ℕ
  pub child_time : ℤ

-- What `sprintf` puts into `log_buffer`, with the depth that `make_indent` was given.
pub data LogLine : Type 0 where
  entered : (pid depth : ℕ) (func : Name) → LogLine
  left : (pid depth : ℕ) (func : Name) (inclusive exclusive : ℤ) → LogLine

-- The messages at KERN_ERR.
pub data Report : Type 0 where
  stack_overflow stack_underflow : Report
  stack_corrupted : (got expected : Name) → Report

-- `stack[0 .. top]` as a list with its top first, so `top` is the length less one. The entries above
-- `top` are never read.
pub record State : Type 0 where
  pub tracked_pid : ℤ
  pub optimization_on : Bool
  pub stack : List FuncTimer
  pub log : List LogLine
  pub log_offset : ℕ
  pub reports : List Report
  pub hooked : Bool

-- `current` at a call.
pub record Current : Type 0 where
  pub pid : ℕ
  pub tgid : ℕ

abbrev pub max_depth : ℕ
max_depth = 100

abbrev pub log_buf_size : ℕ
log_buf_size = 10 * 1024 * 1024

-- The length that `make_indent` writes: two spaces a level, while they fit.
unfoldable pub make_indent_from : ℕ → ℕ → ℕ → ℕ
make_indent_from zero len buf_size = len
make_indent_from (suc levels) len buf_size =
    let more = make_indent_from levels (len + 2) buf_size in
    if ltb (len + 2) buf_size then more else len

unfoldable pub make_indent : ℕ → ℕ → ℕ
unfolding make_indent_from
make_indent depth buf_size = make_indent_from depth 0 buf_size

-- The digits of a number below 10 ^ 20, which covers 64 bits.
unfoldable pub digits_from : ℕ → ℕ → ℕ
digits_from zero n = 0
digits_from (suc fuel) n = let more = digits_from fuel (n / 10) in if ltb n 10 then 1 else 1 + more

unfoldable pub decimal_width : ℕ → ℕ
unfolding digits_from
decimal_width n = digits_from 20 n

unfoldable pub signed_width : ℤ → ℕ
unfolding decimal_width
signed_width (pos n) = decimal_width n
signed_width (negsuc n) = 1 + decimal_width (suc n)

-- The length of a line: "[pid %d]%s--->%s() {\\n" and
-- "[pid %d]%s<---%s() inc=%6lld ns, exc=%6lld ns }\\n".
unfoldable pub line_length : LogLine → ℕ
unfolding make_indent signed_width decimal_width
line_length (entered pid depth func) =
    5 + decimal_width pid + 1 + make_indent depth (2 * max_depth + 1) + 4 + length func + 5
line_length (left pid depth func inclusive exclusive) =
    5
    + decimal_width pid
    + 1
    + make_indent depth (2 * max_depth + 1)
    + 4
    + length func
    + 7
    + max 6 (signed_width inclusive)
    + 9
    + max 6 (signed_width exclusive)
    + 6

-- `memcmp(name, func, strlen(func)) == 0`: the NUL of a shorter name differs.
unfoldable pub starts_with : Name → Name → Bool
starts_with name [] = true
starts_with [] (c ∷ func) = false
starts_with (b ∷ name) (c ∷ func) = (b == c) && starts_with name func
