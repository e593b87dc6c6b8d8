-- ===== src/Race/FastTrack/Steps.antt =====
-- onRead_FT and onWrite_FT.
use mtech.Prelude.{
  ℕ, zero, suc, Bool, true, not, ◌&&◌, ◌==◌, ltb, leb, Option, none, some, if◌then◌else◌, List,
}
use mtech.Prelude.Family.{update}
use mtech.Race.Clocks.{
  thread, VectorClocks, read_write, write_read, write_write, Races, log_data_race,
}

-- struct epoch
pub record Epoch : Type 0 where
  pub id : ℕ
  pub time : ℕ

-- The globals: the stack of parents, the clocks, read_epochs, write_epochs, read_map and
-- data_race_map.
pub record Tracker : Type 0 where
  pub parents : List ℕ
  pub clocks : VectorClocks
  pub read_epochs : ℕ → Option Epoch
  pub write_epochs : ℕ → Option Epoch
  pub read_map : ℕ → Option (ℕ → ℕ)
  pub races : Races

-- The variables that onRead_FT and onWrite_FT keep from one byte to the next, and the globals.
pub record Bytes : Type 0 where
  pub thread_time : ℕ
  pub last_write : ℕ
  pub globals : Tracker

-- What `operator[]` gives, which enters a zero where there is nothing.
abbrev pub epoch_at : Option Epoch → Epoch
epoch_at none = record { id = 0; time = 0 }
epoch_at (some e) = e

abbrev pub touch : ℕ → (ℕ → Option Epoch) → ℕ → Option Epoch
touch v epochs = update epochs v (some (epoch_at (epochs v)))

abbrev pub erase {ℓ} : {A : Type ℓ} → ℕ → (ℕ → Option A) → ℕ → Option A
erase v entries = update entries v none

-- The epoch of a thread at present.
abbrev pub epoch_of : VectorClocks → ℕ → Epoch
epoch_of c t = record { id = t; time = c (thread t) t }

-- The write epoch's thread is logged as racing with a read.
abbrev pub log_read : ℕ → ℕ → Tracker → Tracker
log_read t v s = record s {
  write_epochs = touch v s.write_epochs;
  races = log_data_race (epoch_at (s.write_epochs v)).id t v read_write s.races;
}

-- The read epoch `r` of a location, where the last write and what the thread knows are given.
unfoldable pub read_epoch : ℕ → ℕ → Epoch → ℕ → ℕ → Tracker → Tracker
unfolding log_data_race
read_epoch t v r last_write thread_time s =
    let zeros : ℕ → ℕ = (λ i. 0) in
    let times = update (update zeros t (s.clocks (thread t) t)) r.id thread_time in
    if leb last_write thread_time
    then (if ltb r.time thread_time
        then (if r.id == t
            then record s {
              read_epochs =
                  update s.read_epochs v (some (record r { time = s.clocks (thread t) t }));
            }
            else record s { read_epochs = update s.read_epochs v (some (epoch_of s.clocks t)) })
        else (if not (r.id == t)
            then record s {
              read_map = update s.read_map v (some times);
              read_epochs = erase v s.read_epochs;
            }
            else s))
    else log_read t v s

-- The vector of reads of a location.
unfoldable pub read_vector : ℕ → ℕ → (ℕ → ℕ) → ℕ → ℕ → Tracker → Tracker
unfolding log_data_race
read_vector t v times last_write thread_time s =
    if leb last_write thread_time
    then record s { read_map = update s.read_map v (some (update times t thread_time)) }
    else log_read t v s

abbrev pub time_or : ℕ → Option Epoch → ℕ
time_or before none = before
time_or before (some e) = e.time

-- One byte of onRead_FT, by what read_epochs and read_map have of it.
unfoldable pub read_ft : ℕ → ℕ → ℕ → ℕ → Tracker → Option Epoch → Option (ℕ → ℕ) → Bytes
unfolding read_epoch read_vector
read_ft t v thread_time before s (some r) reads =
    let last_write = time_or before (s.write_epochs v) in
    let known = s.clocks (thread t) r.id in
    record {
      thread_time = known;
      last_write = last_write;
      globals = read_epoch t v r last_write known s;
    }
read_ft t v thread_time before s none (some times) =
    let last_write = time_or before (s.write_epochs v) in
    record {
      thread_time = thread_time;
      last_write = last_write;
      globals = read_vector t v times last_write thread_time s;
    }
read_ft t v thread_time before s none none = record {
  thread_time = thread_time;
  last_write = time_or before (s.write_epochs v);
  globals = record s { read_epochs = update s.read_epochs v (some (epoch_of s.clocks t)) };
}

unfoldable pub read_byte_ft : ℕ → ℕ → Bytes → Bytes
unfolding read_ft
read_byte_ft t v b =
    let s = b.globals in read_ft t v b.thread_time b.last_write s (s.read_epochs v) (s.read_map v)

-- `happens_before`
unfoldable pub all_known : ℕ → (ℕ → ℕ) → VectorClocks → ℕ → Bool
all_known zero times c t = true
all_known (suc n) times c t = all_known n times c t && leb (times n) (c (thread t) n)

abbrev pub put_write : ℕ → ℕ → Tracker → Tracker
put_write t v s = record s { write_epochs = update s.write_epochs v (some (epoch_of s.clocks t)) }

-- A write after a known write of another thread.
unfoldable pub write_after : ℕ → ℕ → ℕ → ℕ → Tracker → Option Epoch → Option (ℕ → ℕ) → Tracker
unfolding log_data_race all_known
write_after n t v thread_time s (some r) reads =
    if leb r.time thread_time
    then put_write t v s
    else record s { races = log_data_race t r.id v write_read s.races }
write_after n t v thread_time s none (some times) =
    if all_known n times s.clocks t
    then record (put_write t v s) { read_map = erase v s.read_map }
    else record s {
      races = log_data_race t (epoch_at (s.read_epochs v)).id v write_read s.races;
      read_epochs = touch v s.read_epochs;
    }
write_after n t v thread_time s none none = put_write t v s

-- One byte of onWrite_FT, by what write_epochs has of it.
unfoldable pub write_ft : ℕ → ℕ → ℕ → Tracker → Option Epoch → Tracker
unfolding write_after log_data_race
write_ft n t v s none = put_write t v s
write_ft n t v s (some w) =
    let now = s.clocks (thread t) t in
    let thread_time = s.clocks (thread t) w.id in
    if w.id == t
    then (if ltb w.time now
        then record s { write_epochs = update s.write_epochs v (some (record w { time = now })) }
        else s)
    else (if leb w.time thread_time
        then write_after n t v thread_time s (s.read_epochs v) (s.read_map v)
        else record s { races = log_data_race w.id t v write_write s.races })

unfoldable pub write_byte_ft : ℕ → ℕ → ℕ → Tracker → Tracker
unfolding write_ft
write_byte_ft n t v s = write_ft n t v s (s.write_epochs v)
