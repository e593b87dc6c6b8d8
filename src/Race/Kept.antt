-- ===== src/Race/Kept.antt =====
-- The invariant of DJIT+ with the account beside it.
use mtech.Prelude.{
  ℕ, suc, ◌<◌, ◌≡◌, ◌≢◌, refl, sym, ap, ◌∙◌, subst, inl, Bool, true, false, ◌||◌, ltb, leb, Option,
  none, some, if◌then◌else◌, arith, ℕ_discrete,
}
use mtech.Prelude.Family.{update, update_ne, update_self}
use mtech.Race.Clocks.{Holder, thread, lock, VectorClocks, tick, initialize, is_holder, Races}
use mtech.Race.Djit.{
  TimeFrame, State, record_read, record_write, no_frames, read_frames, read_byte, write_frames,
  write_byte, start,
}
use mtech.Race.Seen.{Account, no_account, enter, finds_read, finds_write, count_read, count_write}
use mtech.Race.Sync.{AreClocks}
use mtech.Race.Agree.{Known, tick-Known, Agree, tick_seen-Agree, new-Agree}

-- What the history has of a location agrees with the account.
abbrev FramesAgree : ℕ → State → Account → ℕ → (ℕ → TimeFrame) → Type 0
FramesAgree n s g v frames =
    (u : ℕ)
    → u < n
    → Agree s.clocks g.seen u (frames u).last_read (g.reads v u)
      × Agree s.clocks g.seen u (frames u).last_write (g.writes v u)

pub record Inv (n : ℕ) (s : State) (g : Account) : Type 0 where
  pub clocks : AreClocks n s.clocks
  pub known : Known n g.seen
  pub kept :
      (v : ℕ) (frames : ℕ → TimeFrame)
      → s.history v ≡ some frames
      → (u : ℕ) → u < n
      → Agree s.clocks g.seen u (frames u).last_read (g.reads v u)
        × Agree s.clocks g.seen u (frames u).last_write (g.writes v u)

some_inj : {A : Type 0} {a b : A} → some a ≡ some b → a ≡ b
some_inj e = cc e

update_here : {A : Type 0} (f : ℕ → A) (i : ℕ) (a : A) (j : ℕ) → i ≡ j → update f i a j ≡ a
update_here f i a j e = ground arith

Agree_at :
    (c f : VectorClocks) (u k m k' m' : ℕ) → k' ≡ k → m' ≡ m → Agree c f u k m → Agree c f u k' m'
Agree_at c f u k m k' m' e e' a = rw (e, e') a

read_fields :
    (t now : ℕ) (frames : ℕ → TimeFrame) (u : ℕ)
    → ((record_read t now frames u).last_read ≡ update (λ j. (frames j).last_read) t now u)
      × ((record_read t now frames u).last_write ≡ (frames u).last_write)
read_fields t now frames u = elim (ℕ_discrete t u) [
  | yes e ↦ (ground arith, let same = ap (λ j. (frames j).last_write) e in ground arith)
  | no ne ↦ (ground arith, ground arith)
]

write_fields :
    (t now : ℕ) (frames : ℕ → TimeFrame) (u : ℕ)
    → ((record_write t now frames u).last_read ≡ (frames u).last_read)
      × ((record_write t now frames u).last_write ≡ update (λ j. (frames j).last_write) t now u)
write_fields t now frames u = elim (ℕ_discrete t u) [
  | yes e ↦ (let same = ap (λ j. (frames j).last_read) e in ground arith, ground arith)
  | no ne ↦ (ground arith, ground arith)
]

pub start-Inv : (n : ℕ) → Inv n start no_account
unfolding start no_account initialize
start-Inv n = record {
  clocks = record { started = λ t u h. omega arith; below = λ h u hu. first h u };
  known = λ h u hu. omega arith;
  kept = λ v frames e. absurd (ground arith);
}
  where
    first :
        (h : Holder) (u : ℕ)
        → (is_holder (thread u) h
            || (leb (initialize h u) 1 || ltb (initialize h u) (initialize (thread u) u)))
          ≡ true
    first (thread t) u = ground arith
    first (lock l) u = ground arith

module _ (n t v : ℕ) (s : State) (g : Account) (i : Inv n s g) (races : Races) where
  abbrev now : ℕ
  now = s.clocks (thread t) t

  abbrev number : ℕ
  number = suc (g.seen (thread t) t)

  -- The access is counted and not kept.
  counted : Inv n (record s { races = races }) (record g { seen = tick t g.seen })
  counted = record {
    clocks = i.clocks;
    known = tick-Known n t g.seen i.known;
    kept = λ w frames e u hu.
        let (r, wr) = i.kept w frames e u hu in
        (
          tick_seen-Agree s.clocks g.seen u (frames u).last_read (g.reads w u) t r,
          tick_seen-Agree s.clocks g.seen u (frames u).last_write (g.writes w u) t wr,
        );
  }

  -- A new access among the frames of its location, and the frames that stay.
  entered :
      (last numbers : ℕ → ℕ)
      → ((u : ℕ) → u < n → Agree s.clocks g.seen u (last u) (numbers u))
      → (u : ℕ) → u < n
      → Agree s.clocks (tick t g.seen) u (update last t now u) (update numbers t number u)
  entered last numbers old u hu = elim (ℕ_discrete t u) [
    | yes e ↦
        subst
          (λ j. Agree s.clocks (tick t g.seen) j (update last t now j) (update numbers t number j))
          e
          (Agree_at s.clocks (tick t g.seen) t now number _ _ (update_self last t now)
            (update_self numbers t number)
            (new-Agree n t s.clocks g.seen (omega arith) i.clocks i.known))
    | no ne ↦
        Agree_at s.clocks (tick t g.seen) u (last u) (numbers u) _ _ (update_ne last t now u ne)
          (update_ne numbers t number u ne)
          (tick_seen-Agree s.clocks g.seen u (last u) (numbers u) t (old u hu))
  ]

  stayed :
      (last numbers : ℕ → ℕ)
      → ((u : ℕ) → u < n → Agree s.clocks g.seen u (last u) (numbers u))
      → (u : ℕ) → u < n
      → Agree s.clocks (tick t g.seen) u (last u) (numbers u)
  stayed last numbers old u hu = tick_seen-Agree s.clocks g.seen u (last u) (numbers u) t (old u hu)

  -- New frames of one location.
  replaced :
      (frames : ℕ → TimeFrame) (rs ws : ℕ → ℕ → ℕ)
      → ((w : ℕ) → v ≢ w → (rs w ≡ g.reads w) × (ws w ≡ g.writes w))
      → ((u : ℕ)
          → u < n
          → Agree s.clocks (tick t g.seen) u (frames u).last_read (rs v u)
            × Agree s.clocks (tick t g.seen) u (frames u).last_write (ws v u))
      → Inv n
          (record s { history = update s.history v (some frames); races = races })
          (record { seen = tick t g.seen; reads = rs; writes = ws })
  replaced frames rs ws elsewhere here = record {
    clocks = i.clocks;
    known = tick-Known n t g.seen i.known;
    kept = λ w frames' e u hu. elim (ℕ_discrete v w) [
      | yes at_v ↦
          let found : frames ≡ frames' =
            some_inj (sym (update_here s.history v (some frames) w at_v) ∙ e) in
          rw (← found, ← at_v) (here u hu)
      | no ne ↦
          let (r, wr) =
            i.kept w frames' (sym (update_ne s.history v (some frames) w ne) ∙ e) u hu in
          let (same, same') = elsewhere w ne in
          rw (same, same')
            (
              tick_seen-Agree s.clocks g.seen u (frames' u).last_read (g.reads w u) t r,
              tick_seen-Agree s.clocks g.seen u (frames' u).last_write (g.writes w u) t wr,
            )
    ];
  }

  module _ (frames : ℕ → TimeFrame) (old : FramesAgree n s g v frames) where
    kept_read :
        Inv n
          (record s {
            history = update s.history v (some (record_read t now frames));
            races = races;
          })
          (record g { seen = tick t g.seen; reads = enter v t number g.reads })
    kept_read =
        replaced (record_read t now frames) (enter v t number g.reads) g.writes
          (λ w ne. (update_ne g.reads v (update (g.reads v) t number) w ne, refl))
          (λ u hu. (
            Agree_at s.clocks (tick t g.seen) u _ _ _ _ (read_fields t now frames u).0
                (ap (λ f. f u) (update_self g.reads v (update (g.reads v) t number)))
                (entered (λ j. (frames j).last_read) (g.reads v) (λ j hj. (old j hj).0) u hu),
            Agree_at s.clocks (tick t g.seen) u _ (g.writes v u) _ _ (read_fields t now frames u).1
                refl (stayed (λ j. (frames j).last_write) (g.writes v) (λ j hj. (old j hj).1) u hu),
          ))

    kept_write :
        Inv n
          (record s {
            history = update s.history v (some (record_write t now frames));
            races = races;
          })
          (record g { seen = tick t g.seen; writes = enter v t number g.writes })
    kept_write =
        replaced (record_write t now frames) g.reads (enter v t number g.writes)
          (λ w ne. (refl, update_ne g.writes v (update (g.writes v) t number) w ne))
          (λ u hu. (
            Agree_at s.clocks (tick t g.seen) u _ (g.reads v u) _ _ (write_fields t now frames u).0
                refl (stayed (λ j. (frames j).last_read) (g.reads v) (λ j hj. (old j hj).0) u hu),
            Agree_at s.clocks (tick t g.seen) u _ _ _ _ (write_fields t now frames u).1
                (ap (λ f. f u) (update_self g.writes v (update (g.writes v) t number)))
                (entered (λ j. (frames j).last_write) (g.writes v) (λ j hj. (old j hj).1) u hu),
          ))

no_frames-FramesAgree : (n : ℕ) (s : State) (g : Account) (v : ℕ) → FramesAgree n s g v no_frames
no_frames-FramesAgree n s g v u hu = (inl (omega arith), inl (omega arith))

module _ (n t v : ℕ) (s : State) (g : Account) (i : Inv n s g) where
  -- An access is kept where no race is found.
  kept_or_not_read :
      (found : Bool) (races : Races) (frames : ℕ → TimeFrame)
      → FramesAgree n s g v frames
      → Inv n
          (record s {
            history =
                if found
                then s.history
                else update s.history v (some (record_read t (s.clocks (thread t) t) frames));
            races = races;
          })
          (record g {
            seen = tick t g.seen;
            reads = if found then g.reads else enter v t (suc (g.seen (thread t) t)) g.reads;
          })
  kept_or_not_read true races frames old = counted n t v s g i races
  kept_or_not_read false races frames old = kept_read n t v s g i races frames old

  kept_or_not_write :
      (found : Bool) (races : Races) (frames : ℕ → TimeFrame)
      → FramesAgree n s g v frames
      → Inv n
          (record s {
            history =
                if found
                then s.history
                else update s.history v (some (record_write t (s.clocks (thread t) t) frames));
            races = races;
          })
          (record g {
            seen = tick t g.seen;
            writes = if found then g.writes else enter v t (suc (g.seen (thread t) t)) g.writes;
          })
  kept_or_not_write true races frames old = counted n t v s g i races
  kept_or_not_write false races frames old = kept_write n t v s g i races frames old

  read_frames-Inv :
      (o : Option (ℕ → TimeFrame))
      → s.history v ≡ o
      → Inv n (read_frames n t v s o) (record g {
        seen = tick t g.seen;
        reads =
            if finds_read n t s o then g.reads else enter v t (suc (g.seen (thread t) t)) g.reads;
      })
  unfolding read_frames
  read_frames-Inv none e = kept_or_not_read false s.races no_frames (no_frames-FramesAgree n s g v)
  read_frames-Inv (some frames) e =
      kept_or_not_read (finds_read n t s (some frames)) _ frames (i.kept v frames e)

  write_frames-Inv :
      (o : Option (ℕ → TimeFrame))
      → s.history v ≡ o
      → Inv n (write_frames n t v s o) (record g {
        seen = tick t g.seen;
        writes =
            if finds_write n t s o
            then g.writes
            else enter v t (suc (g.seen (thread t) t)) g.writes;
      })
  unfolding write_frames
  write_frames-Inv none e =
      kept_or_not_write false s.races no_frames (no_frames-FramesAgree n s g v)
  write_frames-Inv (some frames) e =
      kept_or_not_write (finds_write n t s (some frames)) _ frames (i.kept v frames e)

  pub read_byte-Inv : Inv n (read_byte n t v s) (count_read n t v s g)
  unfolding read_byte count_read
  read_byte-Inv = read_frames-Inv (s.history v) refl

  pub write_byte-Inv : Inv n (write_byte n t v s) (count_write n t v s g)
  unfolding write_byte count_write
  write_byte-Inv = write_frames-Inv (s.history v) refl
