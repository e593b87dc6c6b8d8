-- ===== src/Race/Examples.antt =====
-- A trace of two threads, and the theorems at it.
use mtech.Prelude.{
  ℕ, ◌≡◌, refl, Bool, true, false, not, ◌&&◌, ◌==◌, ltb, some, List, [], ◌∷◌, arith,
}
use mtech.Prelude.Family.{update}
use mtech.Race.Clocks.{
  get_max_threads, thread, Line, before_create, thread_begin, access, lock_release, lock_acquire,
  read_write, initialize,
}
use mtech.Race.Djit.{TimeFrame, unseen_write, unseen_read, start, djit_lines, djit}
use mtech.Race.Seen.{no_account, count_all}
use mtech.Race.Exact.{djit-unseen}

-- Address 7 is a lock.
abbrev seven_locks : ℕ → Bool
seven_locks v = v == 7

abbrev reads_by : ℕ → ℕ → Line
reads_by t v = access (record { address = v; t = t; is_read = true; size = 1 })

abbrev writes_by : ℕ → ℕ → Line
writes_by t v = access (record { address = v; t = t; is_read = false; size = 1 })

-- Thread 1 is forked by thread 0, which writes at 9 afterwards; thread 1 reads there, too.
abbrev racing : List Line
racing =
    thread_begin 0
    ∷ (before_create 0
        ∷ (thread_begin 1 ∷ (writes_by 0 9 ∷ (reads_by 1 9 ∷ (writes_by 1 20 ∷ [])))))

-- The read of thread 1 is reported.
racing_reported :
    (djit seven_locks racing).races 9
    ≡ record { count = 1; thread1 = 0; thread2 = 1; kind = read_write } ∷ []
unfolding djit djit_lines start initialize get_max_threads
racing_reported = refl

-- The write of thread 1 at 20, in its first frame, and then one of thread 0 are not.
racing_missed :
    let lines =
      thread_begin 0
      ∷ before_create 0
      ∷ (thread_begin 1 ∷ (writes_by 0 9 ∷ (writes_by 1 20 ∷ (writes_by 0 20 ∷ [])))) in
    (djit seven_locks lines).races 20 ≡ []
unfolding djit djit_lines start initialize get_max_threads
racing_missed = refl

-- With the lock there is no race.
guarded :
    let lines =
      thread_begin 0
      ∷ before_create 0
      ∷ (thread_begin 1
          ∷ (writes_by 0 9 ∷ (lock_release 0 7 ∷ (lock_acquire 1 7 ∷ (reads_by 1 9 ∷ []))))) in
    (djit seven_locks lines).races 9 ≡ []
unfolding djit djit_lines start initialize get_max_threads
guarded = refl

abbrev written : ℕ → TimeFrame
written =
    update (λ u. record { last_read = 0; last_write = 0 }) 0
      (record { last_read = 0; last_write = 2 })

history_at_9 : (djit_lines 2 seven_locks racing start).history 9 ≡ some written
unfolding djit djit_lines start initialize get_max_threads
history_at_9 = refl

djit-unseen_example :
    let s = djit_lines 2 seven_locks racing start in
    let g = count_all 2 seven_locks racing start no_account in
    (unseen_write s.clocks written 1 0 ≡ (
      not (0 == 1) && (ltb 1 (written 0).last_write && ltb (g.seen (thread 1) 0) (g.writes 9 0))))
    × (unseen_read s.clocks written 1 0 ≡ (
        not (0 == 1) && (ltb 1 (written 0).last_read && ltb (g.seen (thread 1) 0) (g.reads 9 0))))
djit-unseen_example = djit-unseen 2 seven_locks racing 9 1 0 written (omega arith) history_at_9
