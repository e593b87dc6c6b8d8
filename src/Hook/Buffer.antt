-- ===== src/Hook/Buffer.antt =====
-- The 256 bytes that the tracer keeps free at the end of its buffer, and exits that match no frame.
use mtech.Prelude.{
  ℕ, zero, suc, ◌+◌, ◌-◌, ◌*◌, ◌/◌, ◌^◌, ◌≤◌, ◌<◌, ◌≡◌, refl, ◌∙◌, true, false, List, [], ◌∷◌,
  length, arith,
}
use Prim.Native.Nat.pow
use mtech.Prelude.Int.{ℤ, pos, negsuc, ◌-ℤ◌}
use mtech.Hook.State.{
  Name, FuncTimer, entered, left, State, Current, max_depth, log_buf_size, line_length, make_indent,
  make_indent_from, decimal_width, signed_width, digits_from, starts_with,
}
use mtech.Hook.Trace.{my_enter, my_exit, pop, write_line}
use mtech.Hook.Balance.{IsTracing}

make_indent_from-eq :
    (levels len size : ℕ)
    → len + 2 * levels < size
    → make_indent_from levels len size ≡ len + 2 * levels
unfolding make_indent_from
make_indent_from-eq zero len size h = omega arith
make_indent_from-eq (suc levels) len size h =
    ground (arith, make_indent_from-eq levels (len + 2) size)

make_indent-eq : (depth : ℕ) → depth < max_depth → make_indent depth (2 * max_depth + 1) ≡ 2 * depth
unfolding make_indent
make_indent-eq depth h = omega (arith, make_indent_from-eq depth 0 (2 * max_depth + 1))

digits_from-le : (fuel k n : ℕ) → n < 10 ^ suc k → digits_from fuel n ≤ suc k
unfolding digits_from
digits_from-le zero k n h = omega arith
digits_from-le (suc fuel) zero n h = ground arith
digits_from-le (suc fuel) (suc k) n h =
    let smaller : n / 10 < 10 ^ suc k = omega (arith, pow.suc 10 (suc k)) in
    ground (arith, digits_from-le fuel k (n / 10) smaller)

digits_from_pos : (fuel n : ℕ) → 0 < digits_from (suc fuel) n
unfolding digits_from
digits_from_pos fuel n = ground arith

-- A line of `my_enter` fits the free bytes: names to 36 bytes, process numbers of up to 7 digits.
entered-le :
    (pid depth : ℕ) (func : Name)
    → pid < 10 ^ 7
    → depth < max_depth
    → length func ≤ 36
    → line_length (entered pid depth func) ≤ 256
unfolding line_length decimal_width
entered-le pid depth func p d n = omega (arith, make_indent-eq depth d, digits_from-le 20 6 pid p)

-- A number of up to 18 digits.
abbrev pub IsShort : ℤ → Type 0
IsShort (pos n) = n < 10 ^ 18
IsShort (negsuc n) = suc n < 10 ^ 18

signed_width-le : (t : ℤ) → IsShort t → signed_width t ≤ 19
unfolding signed_width decimal_width
signed_width-le (pos n) h = omega (arith, digits_from-le 20 17 n h)
signed_width-le (negsuc n) h = omega (arith, digits_from-le 20 17 (suc n) h)

left-le :
    (pid depth : ℕ) (func : Name) (inc exc : ℤ)
    → pid < 10 ^ 7
    → depth ≤ 60
    → length func ≤ 36
    → IsShort inc
    → IsShort exc
    → line_length (left pid depth func inc exc) ≤ 256
unfolding line_length decimal_width
left-le pid depth func inc exc p d n i e = omega (
  arith,
  make_indent-eq depth (omega arith),
  digits_from-le 20 6 pid p,
  signed_width-le inc i,
  signed_width-le exc e,
)

module _ (current : Current) (func : Name) (now : ℕ) (s : State) where
  -- At any depth a line of `my_enter` stays within the buffer, with its closing NUL.
  pub my_enter-within_buffer :
      current.pid < 10 ^ 7
      → length func ≤ 36
      → s.log_offset < log_buf_size
      → (my_enter current func now s).log_offset < log_buf_size
  unfolding my_enter write_line
  my_enter-within_buffer p n h = ground (arith, entered-le current.pid (length s.stack) func)

  -- So does a line of `my_exit` while at most 60 frames lie below the one that is left.
  pub my_exit-within_buffer :
      (f : FuncTimer) (fs : List FuncTimer)
      → s.stack ≡ f ∷ fs
      → current.pid < 10 ^ 7
      → length fs ≤ 60
      → length f.fn_name ≤ 36
      → IsShort (pos now -ℤ pos f.start)
      → IsShort (pos now -ℤ pos f.start -ℤ f.child_time)
      → s.log_offset < log_buf_size
      → (my_exit current func now s).log_offset < log_buf_size
  unfolding my_exit pop write_line
  my_exit-within_buffer f fs e p d n i x h =
      let inc = pos now -ℤ pos f.start in
      let fits = left-le current.pid (length fs) f.fn_name inc (inc -ℤ f.child_time) p d n i x in
      ground arith

  -- Deep down it does not: with 99 frames below, a name of 14 bytes or more and the last offset at
  -- which the tracer writes, the line runs past the end of the buffer.
  pub my_exit-overruns :
      (f : FuncTimer) (fs : List FuncTimer)
      → IsTracing current s
      → s.stack ≡ f ∷ fs
      → length fs ≡ max_depth - 1
      → starts_with f.fn_name func ≡ true
      → 14 ≤ length f.fn_name
      → s.log_offset ≡ log_buf_size - 257
      → log_buf_size ≤ (my_exit current func now s).log_offset
  unfolding my_exit pop write_line line_length decimal_width
  my_exit-overruns f fs t e d m n h =
      let spaces = make_indent-eq (length fs) (omega arith) in
      let digit = digits_from_pos 19 current.pid in ground arith

my_exit-foreign :
    (current : Current) (func : Name) (now : ℕ) (s : State) (f : FuncTimer) (fs : List FuncTimer)
    → s.stack ≡ f ∷ fs
    → starts_with f.fn_name func ≡ false
    → ((my_exit current func now s).stack ≡ f ∷ fs) × ((my_exit current func now s).log ≡ s.log)
unfolding my_exit pop
my_exit-foreign current func now s f fs e m = (ground arith, ground arith)

-- A run of exits, each with its time.
pub exits : Current → List (Name × ℕ) → State → State
exits current [] s = s
exits current ((func, now) ∷ rest) s = exits current rest (my_exit current func now s)

-- None of the functions has a name with which that of the frame begins.
abbrev pub AllForeign : Name → List (Name × ℕ) → Type 0
AllForeign name [] = Unit
AllForeign name ((func, now) ∷ rest) = (starts_with name func ≡ false) × AllForeign name rest

-- A frame whose function returned without its end stays: the exits of all the functions above it find
-- a name that is not theirs, and neither the stack nor the log changes until another process is set.
pub exits-stuck :
    (current : Current) (gs : List (Name × ℕ)) (s : State) (f : FuncTimer) (fs : List FuncTimer)
    → s.stack ≡ f ∷ fs
    → AllForeign f.fn_name gs
    → ((exits current gs s).stack ≡ f ∷ fs) × ((exits current gs s).log ≡ s.log)
unfolding exits
exits-stuck current [] s f fs e foreign = (e, refl)
exits-stuck current ((func, now) ∷ gs) s f fs e (here, foreign) =
    let one = my_exit-foreign current func now s f fs e here in
    let rest = exits-stuck current gs (my_exit current func now s) f fs one.0 foreign in
    (rest.0, rest.1 ∙ one.1)
