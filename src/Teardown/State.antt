-- ===== src/Teardown/State.antt =====
-- The state of cs614/exec_memory_teardown_opt/src/time.c: tunables, counters, the work list, the
-- address spaces that it holds, and the calls that it makes into the rest of the kernel.
use Prim.Native.String.{String}
use mtech.Prelude.{ℕ, ◌+◌, ◌-◌, ◌*◌, ◌%◌, ◌^◌, ◌≡◌, Bool, List, ◌∷◌, [], ◌++◌}
use mtech.Prelude.Int.{ℤ}
use mtech.Prelude.Family.{update}

-- `struct mm_struct`: the counters `mm_users` and `mm_count` (32-bit atomics, as bit patterns), the
-- size in pages, and what `__mmput` tests.
pub record Mm : Type 0 where
  pub mm_users : ℕ
  pub mm_count : ℕ
  pub total_vm : ℕ
  pub on_mmlist : Bool
  pub has_binfmt : Bool

-- The calls on an address space whose bodies belong to other parts of the kernel.
pub data Callee : Type 0 where
  uprobe_clear_state exit_aio ksm_exit khugepaged_exit exit_mmap mm_put_huge_zero_page : Callee
  set_mm_exe_file mmlist_del module_put lru_gen_del_mm mmdrop : Callee

pub record Call : Type 0 where
  pub callee : Callee
  pub mm : ℕ

-- `struct mm_work`, less its list node.
pub record MmWork : Type 0 where
  pub mm : ℕ
  pub pid : ℕ
  pub vm_pages : ℕ
  pub comm : String
  pub enqueue_ns : ℕ

pub record Stats : Type 0 where
  pub intercepted : ℕ
  pub completed : ℕ
  pub oom_fallback : ℕ
  pub disabled_pass : ℕ
  pub hotpath_bypass : ℕ
  pub under_threshold : ℕ
  pub batches : ℕ

pub record Tunables : Type 0 where
  pub enabled : Bool
  pub oom_threshold_kb : ℕ
  pub min_vm_pages : ℕ
  pub batch_size : ℕ
  pub target_pid : ℤ

-- Address spaces stand in a store, by address; `calls` lists what was called, oldest first.
pub record State : Type 0 where
  pub tunables : Tunables
  pub stats : Stats
  pub work_list : List MmWork
  pub mms : ℕ → Mm
  pub calls : List Call

-- The optional functions that `resolve_symbols` found.
pub record Symbols : Type 0 where
  pub fn_ksm_exit : Bool
  pub fn_khugepaged_exit : Bool
  pub fn_exit_aio : Bool

-- `mmgrab` and `mmdrop` on the counter `mm_count`: one takes a reference, the other gives it back.
pub record MmCountApi : Type 0 where
  pub grab : ℕ → ℕ
  pub drop : ℕ → ℕ
  pub drop-grab : (n : ℕ) → drop (grab n) ≡ n

abbrev pub hot_path_bypass_pages : ℕ
hot_path_bypass_pages = 32

abbrev pub initial_tunables : Tunables
initial_tunables = record {
  enabled = Bool.true;
  oom_threshold_kb = 32 * 1024;
  min_vm_pages = 128;
  batch_size = 8;
  target_pid = ℤ.negsuc 0;
}

abbrev pub no_stats : Stats
no_stats = record {
  intercepted = 0;
  completed = 0;
  oom_fallback = 0;
  disabled_pass = 0;
  hotpath_bypass = 0;
  under_threshold = 0;
  batches = 0;
}

-- `atomic_inc` and `atomic_dec` on a 32-bit counter.
abbrev pub atomic_inc : ℕ → ℕ
atomic_inc n = (n + 1) % 2 ^ 32

abbrev pub atomic_dec : ℕ → ℕ
atomic_dec n = (n + (2 ^ 32 - 1)) % 2 ^ 32

abbrev pub set_users : ℕ → ℕ → State → State
set_users a n s = record s { mms = update s.mms a (record (s.mms a) { mm_users = n }) }

abbrev pub set_count : ℕ → ℕ → State → State
set_count a n s = record s { mms = update s.mms a (record (s.mms a) { mm_count = n }) }

abbrev pub call : Callee → ℕ → State → State
call c a s = record s { calls = s.calls ++ record { callee = c; mm = a } ∷ [] }
