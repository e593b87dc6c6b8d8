-- ===== src/Race/Exact.antt =====
-- DJIT+ reports a kept access exactly where its thread does not know of it.
use mtech.Prelude.{
  ℕ, zero, suc, ◌≤◌, ◌<◌, ◌≡◌, ap, inl, inr, Bool, true, false, not, ◌&&◌, ◌==◌, ltb, some,
  if◌then◌else◌, List, [], ◌∷◌, arith,
}
use mtech.Race.Clocks.{
  Holder, thread, lock, VectorClocks, unite, tick, on_release, on_acquire, fork, join, TraceInfo,
  Line, before_create, thread_begin, thread_ended, access, lock_release, lock_acquire, other_line,
}
use mtech.Race.Djit.{
  TimeFrame, State, unseen_write, unseen_read, read_byte, write_byte, bytes, on_access, djit_line,
  start, djit_lines,
}
use mtech.Race.Seen.{
  Account, no_account, count_read, count_write, count_bytes, count_access, count_line, count_all,
}
use mtech.Race.Sync.{give-AreClocks, take-AreClocks}
use mtech.Race.Agree.{unite-Known, Agree, unite-Agree, tick_clock-Agree}
use mtech.Race.Kept.{Inv, start-Inv, read_byte-Inv, write_byte-Inv}

module _ (n : ℕ) (s : State) (g : Account) (i : Inv n s g) (parents : List ℕ) where
  give-Inv :
      (target : Holder) (t : ℕ)
      → Inv n
          (record s { parents = parents; clocks = tick t (unite n target (thread t) s.clocks) })
          (record g { seen = unite n target (thread t) g.seen })
  give-Inv target t = record {
    clocks = give-AreClocks n target t s.clocks i.clocks;
    known = unite-Known n target (thread t) g.seen i.known;
    kept = λ v frames e u hu.
        let (r, w) = i.kept v frames e u hu in
        let c = unite n target (thread t) s.clocks in
        let f = unite n target (thread t) g.seen in
        (
          tick_clock-Agree c f u (frames u).last_read (g.reads v u) t (
              unite-Agree s.clocks g.seen u (frames u).last_read (g.reads v u) n target (thread t)
                hu r),
          tick_clock-Agree c f u (frames u).last_write (g.writes v u) t (
              unite-Agree s.clocks g.seen u (frames u).last_write (g.writes v u) n target (thread t)
                hu w),
        );
  }

  take-Inv :
      (target : Holder) (l : ℕ)
      → Inv n
          (record s { parents = parents; clocks = unite n target (lock l) s.clocks })
          (record g { seen = unite n target (lock l) g.seen })
  take-Inv target l = record {
    clocks = take-AreClocks n target l s.clocks i.clocks;
    known = unite-Known n target (lock l) g.seen i.known;
    kept = λ v frames e u hu.
        let (r, w) = i.kept v frames e u hu in
        (
          unite-Agree s.clocks g.seen u (frames u).last_read (g.reads v u) n target (lock l) hu r,
          unite-Agree s.clocks g.seen u (frames u).last_write (g.writes v u) n target (lock l) hu w,
        );
  }

  with_parents-Inv : Inv n (record s { parents = parents }) g
  with_parents-Inv = record { clocks = i.clocks; known = i.known; kept = i.kept }

bytes-Inv :
    (n : ℕ) (byte : ℕ → State → State) (count : ℕ → State → Account → Account)
    → ((v : ℕ) (s : State) (g : Account) → Inv n s g → Inv n (byte v s) (count v s g))
    → (size v : ℕ) (s : State) (g : Account) → Inv n s g
    → Inv n (bytes byte size v s) (count_bytes byte count size v s g)
unfolding bytes count_bytes
bytes-Inv n byte count keep zero v s g i = i
bytes-Inv n byte count keep (suc size) v s g i =
    bytes-Inv n byte count keep size (suc v) (byte v s) (count v s g) (keep v s g i)

module _ (n : ℕ) (is_lock : ℕ → Bool) where
  access-Inv :
      (ti : TraceInfo) (s : State) (g : Account)
      → Inv n s g
      → Inv n (on_access n is_lock ti s) (count_access n is_lock ti s g)
  unfolding on_access count_access
  access-Inv ti s g i = cases (is_lock ti.address) ti.is_read
    where
      cases :
          (a b : Bool)
          → Inv n
              (if a
                then s
                else (if b
                    then bytes (read_byte n ti.t) ti.size ti.address s
                    else bytes (write_byte n ti.t) ti.size ti.address s))
              (if a
                then g
                else (if b
                    then count_bytes (read_byte n ti.t) (count_read n ti.t) ti.size ti.address s g
                    else count_bytes
                        (write_byte n ti.t)
                        (count_write n ti.t)
                        ti.size
                        ti.address
                        s
                        g))
      cases true b = i
      cases false true =
          bytes-Inv n (read_byte n ti.t) (count_read n ti.t) (λ v. read_byte-Inv n ti.t v) ti.size
            ti.address s g i
      cases false false =
          bytes-Inv n (write_byte n ti.t) (count_write n ti.t) (λ v. write_byte-Inv n ti.t v)
            ti.size ti.address s g i

  line-Inv :
      (line : Line) (s : State) (g : Account)
      → Inv n s g
      → Inv n (djit_line n is_lock line s) (count_line n is_lock line s g)
  unfolding djit_line count_line on_release on_acquire fork join
  line-Inv (before_create parent) s g i = with_parents-Inv n s g i (parent ∷ s.parents)
  line-Inv (thread_begin forked) s g i = begun s.parents
    where
      begun :
          (l : List ℕ)
          → Inv n
              (elim l [ [] ↦ s | t ∷ rest ↦ record s { clocks = fork n t forked s.clocks } ])
              (elim l [
                | [] ↦ g
                | t ∷ rest ↦ record g { seen = unite n (thread forked) (thread t) g.seen }
              ])
      begun [] = i
      begun (t ∷ rest) = give-Inv n s g i s.parents (thread forked) t
  line-Inv (thread_ended joined) s g i = ended s.parents
    where
      ended :
          (l : List ℕ)
          → Inv n
              (elim l [
                | [] ↦ s
                | t ∷ rest ↦ record s { parents = rest; clocks = join n t joined s.clocks }
              ])
              (elim l [
                | [] ↦ g
                | t ∷ rest ↦ record g { seen = unite n (thread t) (thread joined) g.seen }
              ])
      ended [] = i
      ended (t ∷ rest) = give-Inv n s g i rest (thread t) joined
  line-Inv (access ti) s g i = access-Inv ti s g i
  line-Inv (lock_release t l) s g i = give-Inv n s g i s.parents (lock l) t
  line-Inv (lock_acquire t l) s g i = take-Inv n s g i s.parents (thread t) l
  line-Inv other_line s g i = i

  djit_lines-Inv :
      (lines : List Line) (s : State) (g : Account)
      → Inv n s g
      → Inv n (djit_lines n is_lock lines s) (count_all n is_lock lines s g)
  unfolding djit_lines count_all
  djit_lines-Inv [] s g i = i
  djit_lines-Inv (line ∷ lines) s g i =
      djit_lines-Inv lines (djit_line n is_lock line s) (count_line n is_lock line s g)
        (line-Inv line s g i)

ltb-Agree :
    (c f : VectorClocks) (u t k m : ℕ)
    → 1 ≤ c (thread t) u
    → Agree c f u k m
    → ltb (c (thread t) u) k ≡ (ltb 1 k && ltb (f (thread t) u) m)
ltb-Agree c f u t k m some_frame (inl first) = ground arith
ltb-Agree c f u t k m some_frame (inr (own, same)) = let e = same (thread t) in ground arith

-- After any trace, a thread compares as unseen the accesses of another thread that the history has of
-- a location exactly where it does not know of them by the order of the synchronisation and they are
-- not of that thread's first frame.
pub djit-unseen :
    (n : ℕ) (is_lock : ℕ → Bool) (lines : List Line) (v t u : ℕ) (frames : ℕ → TimeFrame)
    → u < n
    → let s = djit_lines n is_lock lines start in
      let g = count_all n is_lock lines start no_account in
      s.history v ≡ some frames
      → (unseen_write s.clocks frames t u ≡ (
          not (u == t)
          && (ltb 1 (frames u).last_write && ltb (g.seen (thread t) u) (g.writes v u))))
        × (unseen_read s.clocks frames t u ≡ (
            not (u == t)
            && (ltb 1 (frames u).last_read && ltb (g.seen (thread t) u) (g.reads v u))))
djit-unseen n is_lock lines v t u frames hu e =
    let i = djit_lines-Inv n is_lock lines start no_account (start-Inv n) in
    let s = djit_lines n is_lock lines start in
    let g = count_all n is_lock lines start no_account in
    let (r, w) = i.kept v frames e u hu in
    let some_frame = i.clocks.started t u hu in
    (
      ap (λ b. not (u == t) && b)
          (ltb-Agree s.clocks g.seen u t (frames u).last_write (g.writes v u) some_frame w),
      ap (λ b. not (u == t) && b)
          (ltb-Agree s.clocks g.seen u t (frames u).last_read (g.reads v u) some_frame r),
    )
