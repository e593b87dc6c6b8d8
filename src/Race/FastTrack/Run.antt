-- ===== src/Race/FastTrack/Run.antt =====
-- The loops over the bytes of an access, and the lines of a trace.
use mtech.Prelude.{ℕ, zero, suc, Bool, none, if◌then◌else◌, List, [], ◌∷◌}
use mtech.Race.Clocks.{
  get_max_threads, on_release, on_acquire, fork, join, initialize, TraceInfo, Line, before_create,
  thread_begin, thread_ended, access, lock_release, lock_acquire, other_line,
}
use mtech.Race.FastTrack.Steps.{Tracker, Bytes, read_byte_ft, write_byte_ft}

-- The loops over the bytes.
unfoldable pub read_bytes : ℕ → ℕ → ℕ → Bytes → Bytes
unfolding read_byte_ft
read_bytes t zero v b = b
read_bytes t (suc size) v b = read_bytes t size (suc v) (read_byte_ft t v b)

unfoldable pub write_bytes : ℕ → ℕ → ℕ → ℕ → Tracker → Tracker
unfolding write_byte_ft
write_bytes n t zero v s = s
write_bytes n t (suc size) v s = write_bytes n t size (suc v) (write_byte_ft n t v s)

-- An access. What `thread_time` holds at first, which is not initialised, is a parameter.
unfoldable pub on_access_ft : ℕ → (ℕ → Bool) → ℕ → TraceInfo → Tracker → Tracker
unfolding read_bytes write_bytes
on_access_ft n is_lock garbage ti s =
    let first : Bytes = record { thread_time = garbage; last_write = 0; globals = s } in
    let read = (read_bytes ti.t ti.size ti.address first).globals in
    let written = write_bytes n ti.t ti.size ti.address s in
    if is_lock ti.address then s else (if ti.is_read then read else written)

-- One line of the trace.
unfoldable pub fasttrack_line : ℕ → (ℕ → Bool) → ℕ → Line → Tracker → Tracker
unfolding on_release on_acquire fork join on_access_ft
fasttrack_line n is_lock garbage (before_create parent) s = record s {
  parents = parent ∷ s.parents;
}
fasttrack_line n is_lock garbage (thread_begin forked) s = elim s.parents [
  | [] ↦ s
  | t ∷ rest ↦ record s { clocks = fork n t forked s.clocks }
]
fasttrack_line n is_lock garbage (thread_ended joined) s = elim s.parents [
  | [] ↦ s
  | t ∷ rest ↦ record s { parents = rest; clocks = join n t joined s.clocks }
]
fasttrack_line n is_lock garbage (access ti) s = on_access_ft n is_lock garbage ti s
fasttrack_line n is_lock garbage (lock_release t l) s = record s {
  clocks = on_release n t l s.clocks;
}
fasttrack_line n is_lock garbage (lock_acquire t l) s = record s {
  clocks = on_acquire n t l s.clocks;
}
fasttrack_line n is_lock garbage other_line s = s

unfoldable pub start_ft : Tracker
unfolding initialize
start_ft = record {
  parents = [];
  clocks = initialize;
  read_epochs = λ v. none;
  write_epochs = λ v. none;
  read_map = λ v. none;
  races = λ v. [];
}

-- The lines in order.
unfoldable pub fasttrack_lines : ℕ → (ℕ → Bool) → ℕ → List Line → Tracker → Tracker
unfolding fasttrack_line
fasttrack_lines n is_lock garbage [] s = s
fasttrack_lines n is_lock garbage (line ∷ lines) s =
    fasttrack_lines n is_lock garbage lines (fasttrack_line n is_lock garbage line s)

-- `initialize` and `fasttrack` on a file.
unfoldable pub fasttrack : (ℕ → Bool) → ℕ → List Line → Tracker
unfolding fasttrack_lines start_ft get_max_threads
fasttrack is_lock garbage lines =
    fasttrack_lines (get_max_threads lines) is_lock garbage lines start_ft
