-- ===== src/Race/Djit.antt =====
-- djit.h: the detector DJIT+.
use mtech.Prelude.{
  ℕ, zero, suc, Bool, false, not, ◌&&◌, ◌||◌, ◌==◌, ltb, Option, none, some, if◌then◌else◌, List,
  [], ◌∷◌,
}
use mtech.Prelude.Family.{update}
use mtech.Race.Clocks.{
  get_max_threads, thread, VectorClocks, on_release, on_acquire, fork, join, initialize, TraceInfo,
  Line, before_create, thread_begin, thread_ended, access, lock_release, lock_acquire, other_line,
  DataRaceType, read_write, write_read, write_write, Races, log_data_race,
}

-- struct time_frame
pub record TimeFrame : Type 0 where
  pub last_read : ℕ
  pub last_write : ℕ

-- The globals: the stack of parents, the clocks, access_history_map and data_race_map.
pub record State : Type 0 where
  pub parents : List ℕ
  pub clocks : VectorClocks
  pub history : ℕ → Option (ℕ → TimeFrame)
  pub races : Races

-- `for (int u = 0; u < n; u++) if (test(u)) logDataRace(u, t, v, kind)`
unfoldable pub report : ℕ → (ℕ → Bool) → ℕ → ℕ → DataRaceType → Races → Races
unfolding log_data_race
report zero test t v kind races = races
report (suc n) test t v kind races =
    let before = report n test t v kind races in
    if test n then log_data_race n t v kind before else before

-- Whether the test holds for a thread.
unfoldable pub any : ℕ → (ℕ → Bool) → Bool
any zero test = false
any (suc n) test = any n test || test n

-- `u != t && access_history_map[v][u].last_write > threads_map[t][u]`, and for last_read.
abbrev pub unseen_write : VectorClocks → (ℕ → TimeFrame) → ℕ → ℕ → Bool
unseen_write c frames t u = not (u == t) && ltb (c (thread t) u) (frames u).last_write

abbrev pub unseen_read : VectorClocks → (ℕ → TimeFrame) → ℕ → ℕ → Bool
unseen_read c frames t u = not (u == t) && ltb (c (thread t) u) (frames u).last_read

abbrev pub no_frames : ℕ → TimeFrame
no_frames u = record { last_read = 0; last_write = 0 }

abbrev pub record_read : ℕ → ℕ → (ℕ → TimeFrame) → ℕ → TimeFrame
record_read t now frames = update frames t (record (frames t) { last_read = now })

abbrev pub record_write : ℕ → ℕ → (ℕ → TimeFrame) → ℕ → TimeFrame
record_write t now frames = update frames t (record (frames t) { last_write = now })

-- One byte of onRead_DJIT, by what access_history_map has of it.
unfoldable pub read_frames : ℕ → ℕ → ℕ → State → Option (ℕ → TimeFrame) → State
unfolding report any
read_frames max_threads t v s none = record s {
  history = update s.history v (some (record_read t (s.clocks (thread t) t) no_frames));
}
read_frames max_threads t v s (some frames) =
    let test = unseen_write s.clocks frames t in
    record s {
      history =
          if any max_threads test
          then s.history
          else update s.history v (some (record_read t (s.clocks (thread t) t) frames));
      races = report max_threads test t v read_write s.races;
    }

unfoldable pub read_byte : ℕ → ℕ → ℕ → State → State
unfolding read_frames
read_byte max_threads t v s = read_frames max_threads t v s (s.history v)

-- The loop of onWrite_DJIT over the threads.
unfoldable pub report_write : ℕ → VectorClocks → (ℕ → TimeFrame) → ℕ → ℕ → Races → Races
unfolding log_data_race
report_write zero c frames t v races = races
report_write (suc n) c frames t v races =
    let before = report_write n c frames t v races in
    let written =
      if unseen_write c frames t n then log_data_race n t v write_write before else before in
    if unseen_read c frames t n then log_data_race n t v write_read written else written

-- One byte of onWrite_DJIT, by what access_history_map has of it.
unfoldable pub write_frames : ℕ → ℕ → ℕ → State → Option (ℕ → TimeFrame) → State
unfolding report_write any
write_frames max_threads t v s none = record s {
  history = update s.history v (some (record_write t (s.clocks (thread t) t) no_frames));
}
write_frames max_threads t v s (some frames) =
    let race_detected =
      any max_threads (λ u. unseen_write s.clocks frames t u || unseen_read s.clocks frames t u) in
    record s {
      history =
          if race_detected
          then s.history
          else update s.history v (some (record_write t (s.clocks (thread t) t) frames));
      races = report_write max_threads s.clocks frames t v s.races;
    }

unfoldable pub write_byte : ℕ → ℕ → ℕ → State → State
unfolding write_frames
write_byte max_threads t v s = write_frames max_threads t v s (s.history v)

-- The loop over the bytes of an access; add_byte gives the next address.
unfoldable pub bytes : (ℕ → State → State) → ℕ → ℕ → State → State
bytes byte zero v s = s
bytes byte (suc size) v s = bytes byte size (suc v) (byte v s)

-- An access, where `is_lock` tells the addresses of locks.
unfoldable pub on_access : ℕ → (ℕ → Bool) → TraceInfo → State → State
unfolding bytes read_byte write_byte
on_access max_threads is_lock ti s =
    let read = bytes (read_byte max_threads ti.t) ti.size ti.address s in
    let written = bytes (write_byte max_threads ti.t) ti.size ti.address s in
    if is_lock ti.address then s else (if ti.is_read then read else written)

-- One line of the trace.
unfoldable pub djit_line : ℕ → (ℕ → Bool) → Line → State → State
unfolding on_release on_acquire fork join on_access
djit_line n is_lock (before_create parent) s = record s { parents = parent ∷ s.parents }
djit_line n is_lock (thread_begin forked) s = elim s.parents [
  | [] ↦ s
  | t ∷ rest ↦ record s { clocks = fork n t forked s.clocks }
]
djit_line n is_lock (thread_ended joined) s = elim s.parents [
  | [] ↦ s
  | t ∷ rest ↦ record s { parents = rest; clocks = join n t joined s.clocks }
]
djit_line n is_lock (access ti) s = on_access n is_lock ti s
djit_line n is_lock (lock_release t l) s = record s { clocks = on_release n t l s.clocks }
djit_line n is_lock (lock_acquire t l) s = record s { clocks = on_acquire n t l s.clocks }
djit_line n is_lock other_line s = s

unfoldable pub start : State
unfolding initialize
start = record { parents = []; clocks = initialize; history = λ v. none; races = λ v. [] }

-- The lines in order.
unfoldable pub djit_lines : ℕ → (ℕ → Bool) → List Line → State → State
unfolding djit_line
djit_lines n is_lock [] s = s
djit_lines n is_lock (line ∷ lines) s = djit_lines n is_lock lines (djit_line n is_lock line s)

-- `initialize` and `djit` on a file.
unfoldable pub djit : (ℕ → Bool) → List Line → State
unfolding djit_lines start get_max_threads
djit is_lock lines = djit_lines (get_max_threads lines) is_lock lines start
