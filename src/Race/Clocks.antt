-- ===== src/Race/Clocks.antt =====
-- commonutil.h: the vector clocks of threads and locks, the lines of a trace, and the races found.
use mtech.Prelude.{ℕ, suc, Bool, true, false, ◌&&◌, ◌==◌, ltb, if◌then◌else◌, List, [], ◌∷◌, ◌++◌}
use mtech.Prelude.Family.{update}

-- A key of threads_map or of locks_map.
pub data Holder : Type 0 where
  thread lock : ℕ → Holder

abbrev pub is_holder : Holder → Holder → Bool
is_holder (thread t) (thread u) = t == u
is_holder (lock l) (lock m) = l == m
is_holder (thread t) (lock l) = false
is_holder (lock l) (thread t) = false

-- threads_map and locks_map.
abbrev pub VectorClocks : Type 0
VectorClocks = Holder → ℕ → ℕ

-- `std::max(a, b)`
abbrev pub max_of : ℕ → ℕ → ℕ
max_of a b = if ltb a b then b else a

-- The loops that raise each of the first `max_threads` entries of one vector to those of another.
unfoldable pub unite : ℕ → Holder → Holder → VectorClocks → VectorClocks
unite max_threads target source c h i =
    if is_holder target h && ltb i max_threads then max_of (c target i) (c source i) else c h i

-- `threads_map[t][t]++`
unfoldable pub tick : ℕ → VectorClocks → VectorClocks
tick t c h i = if is_holder (thread t) h && t == i then suc (c h i) else c h i

unfoldable pub on_release : ℕ → ℕ → ℕ → VectorClocks → VectorClocks
unfolding unite tick
on_release max_threads t l c = tick t (unite max_threads (lock l) (thread t) c)

unfoldable pub on_acquire : ℕ → ℕ → ℕ → VectorClocks → VectorClocks
unfolding unite
on_acquire max_threads t l = unite max_threads (thread t) (lock l)

-- A forked thread takes over its parent's clock.
unfoldable pub fork : ℕ → ℕ → ℕ → VectorClocks → VectorClocks
unfolding unite tick
fork max_threads t forked_thread c = tick t (unite max_threads (thread forked_thread) (thread t) c)

-- A parent takes over the clock of a thread it joins.
unfoldable pub join : ℕ → ℕ → ℕ → VectorClocks → VectorClocks
unfolding unite tick
join max_threads t joined_thread c =
    tick joined_thread (unite max_threads (thread t) (thread joined_thread) c)

-- initializeThreadsMap and initializeLocksMap.
unfoldable pub initialize : VectorClocks
initialize (thread t) i = 1
initialize (lock l) i = 0

-- An access, its address as a number.
pub record TraceInfo : Type 0 where
  pub address : ℕ
  pub t : ℕ
  pub is_read : Bool
  pub size : ℕ

-- What a line of the trace is, by the first of the tests that it passes; the parsing of a line is not
-- modelled.
pub data Line : Type 0 where
  before_create : ℕ → Line
  thread_begin : ℕ → Line
  thread_ended : ℕ → Line
  access : TraceInfo → Line
  lock_release : ℕ → ℕ → Line
  lock_acquire : ℕ → ℕ → Line
  other_line : Line

-- `getMaxThreads`: the lines of threads that begin, that of the first thread included.
unfoldable pub get_max_threads : List Line → ℕ
get_max_threads [] = 0
get_max_threads (thread_begin forked ∷ lines) = suc (get_max_threads lines)
get_max_threads (line ∷ lines) = get_max_threads lines

pub data DataRaceType : Type 0 where
  read_write write_read write_write : DataRaceType

abbrev pub is_type : DataRaceType → DataRaceType → Bool
is_type read_write read_write = true
is_type write_read write_read = true
is_type write_write write_write = true
is_type _ _ = false

pub record DataRace : Type 0 where
  pub count : ℕ
  pub thread1 : ℕ
  pub thread2 : ℕ
  pub kind : DataRaceType

abbrev pub same_race : ℕ → ℕ → DataRaceType → DataRace → Bool
same_race t u kind race = race.thread1 == t && (race.thread2 == u && is_type race.kind kind)

-- The loop of logDataRace over the races of a location.
unfoldable pub raise_counts : ℕ → ℕ → DataRaceType → List DataRace → List DataRace
raise_counts t u kind [] = []
raise_counts t u kind (race ∷ races) =
    (if same_race t u kind race then record race { count = suc race.count } else race)
    ∷ raise_counts t u kind races

unfoldable pub is_known : ℕ → ℕ → DataRaceType → List DataRace → Bool
is_known t u kind [] = false
is_known t u kind (race ∷ races) = if same_race t u kind race then true else is_known t u kind races

-- data_race_map: a location with no entry has no races.
abbrev pub Races : Type 0
Races = ℕ → List DataRace

unfoldable pub log_data_race : ℕ → ℕ → ℕ → DataRaceType → Races → Races
unfolding raise_counts is_known
log_data_race t u v kind races =
    let raised = raise_counts t u kind (races v) in
    let first : DataRace = record { count = 1; thread1 = t; thread2 = u; kind = kind } in
    update races v (if is_known t u kind (races v) then raised else raised ++ (first ∷ []))
