-- ===== src/Race/FastTrack/Examples.antt =====
-- Traces of two threads.
use mtech.Prelude.{ℕ, ◌≡◌, refl, Bool, true, false, List, [], ◌∷◌}
use mtech.Race.Clocks.{
  get_max_threads, Line, before_create, thread_begin, access, read_write, initialize,
}
use mtech.Race.FastTrack.Run.{start_ft, fasttrack_lines, fasttrack}

abbrev no_locks : ℕ → Bool
no_locks v = false

abbrev reads_by : ℕ → ℕ → Line
reads_by t v = access (record { address = v; t = t; is_read = true; size = 1 })

abbrev writes_by : ℕ → ℕ → Line
writes_by t v = access (record { address = v; t = t; is_read = false; size = 1 })

-- Thread 0 writes before it forks thread 1; then both read, thread 1 twice.
abbrev shared_reads : List Line
shared_reads =
    thread_begin 0
    ∷ writes_by 0 9
    ∷ (before_create 0 ∷ (thread_begin 1 ∷ (reads_by 0 9 ∷ (reads_by 1 9 ∷ (reads_by 1 9 ∷ [])))))

-- Whether the last read is reported hangs on the variable that is not initialised.
by_garbage :
    ((fasttrack no_locks 0 shared_reads).races 9
      ≡ record { count = 1; thread1 = 0; thread2 = 1; kind = read_write } ∷ [])
    × ((fasttrack no_locks 5 shared_reads).races 9 ≡ [])
unfolding fasttrack fasttrack_lines start_ft initialize get_max_threads
by_garbage = (refl, refl)

-- A second write of thread 0 beside a read of thread 1 is not compared to it.
second_write :
    let lines =
      thread_begin 0
      ∷ writes_by 0 9
      ∷ (before_create 0 ∷ (thread_begin 1 ∷ (reads_by 1 9 ∷ (writes_by 0 9 ∷ [])))) in
    (fasttrack no_locks 0 lines).races 9 ≡ []
unfolding fasttrack fasttrack_lines start_ft initialize get_max_threads
second_write = refl
