-- ===== src/Teardown/Examples.antt =====
-- Runs of the teardown module, and its theorems at concrete inputs.
use mtech.Prelude.{ℕ, suc, ◌+◌, ◌^◌, ◌≡◌, ◌≢◌, ◌⊎◌, refl, true, false, ◌∷◌, [], ◌++◌, length}
use mtech.Prelude.Int.{pos, negsuc}
use mtech.Prelude.Family.{update}
use mtech.Teardown.State.{Mm, MmWork, Symbols, State, MmCountApi, initial_tunables, no_stats}
use mtech.Teardown.Handler.{
  Env, mmput, mmput_pre_handler, probed_mmput, low_memory, filtered_out, intercept, final_mmput,
}
use mtech.Teardown.Worker.{worker_turn, drain, drain_round, destroy, tear_down, end_batch}
use mtech.Teardown.Lifecycle.{
  Answers, async_mm_init, nothing_held, all_held, async_mm_init-Resources,
}
use mtech.Teardown.Deferral.{Cases, probed_mmput-Cases}
use mtech.Teardown.Drain.{all_calls, worker_turn-drains}

abbrev plain_count : MmCountApi
plain_count = record {
  grab = λ n. suc n;
  drop = λ n. Prim.Native.Nat.pred n;
  drop-grab = λ n. refl;
}

abbrev all_symbols : Symbols
all_symbols = record { fn_ksm_exit = true; fn_khugepaged_exit = true; fn_exit_aio = false }

abbrev shell : Env
shell = record {
  pid = 41;
  tgid = 41;
  comm = "sh";
  freeram = 2 ^ 20;
  mem_unit = 4096;
  allocated = true;
  now_ns = 900;
}

abbrev big : Mm
big = record { mm_users = 1; mm_count = 1; total_vm = 200; on_mmlist = false; has_binfmt = true }

abbrev tiny : Mm
tiny = record { mm_users = 1; mm_count = 1; total_vm = 20; on_mmlist = false; has_binfmt = true }

abbrev loaded : (ℕ → Mm) → State
loaded mms = record {
  tunables = initial_tunables;
  stats = no_stats;
  work_list = [];
  mms = mms;
  calls = [];
}

abbrev one_mm : State
one_mm = loaded (update (λ _. tiny) 7 big)

abbrev entry : ℕ → MmWork
entry a = record { mm = a; pid = 41; vm_pages = 200; comm = "sh"; enqueue_ns = 900 }

abbrev three_entries : State
three_entries = record one_mm {
  work_list = entry 1 ∷ entry 2 ∷ entry 3 ∷ [];
  tunables = record initial_tunables { batch_size = 2 };
}

deferred_runs : (probed_mmput plain_count shell 7 one_mm).work_list ≡ entry 7 ∷ []
unfolding probed_mmput mmput mmput_pre_handler intercept low_memory filtered_out final_mmput
deferred_runs = refl

bypass_runs : (probed_mmput plain_count shell 8 one_mm).stats.hotpath_bypass ≡ 1
unfolding probed_mmput mmput mmput_pre_handler intercept low_memory filtered_out final_mmput
bypass_runs = refl

three_runs : (worker_turn plain_count all_symbols three_entries).stats.batches ≡ 2
unfolding worker_turn drain drain_round destroy tear_down end_batch
three_runs = refl

probed_mmput-Cases_example :
    Cases plain_count shell 7 one_mm (probed_mmput plain_count shell 7 one_mm)
probed_mmput-Cases_example = probed_mmput-Cases plain_count shell 7 one_mm

worker_turn-drains_example :
    ((worker_turn plain_count all_symbols three_entries).work_list ≡ [])
    × ((worker_turn plain_count all_symbols three_entries).calls
        ≡ three_entries.calls ++ all_calls all_symbols (entry 1 ∷ entry 2 ∷ entry 3 ∷ []))
    × ((worker_turn plain_count all_symbols three_entries).stats.completed
        ≡ three_entries.stats.completed + length (entry 1 ∷ entry 2 ∷ entry 3 ∷ []))
worker_turn-drains_example = worker_turn-drains plain_count all_symbols three_entries

abbrev no_group : Answers
no_group = record {
  register_kallsyms = pos 0;
  found_exit_mmap = true;
  created_kobj = true;
  create_group = pos 0;
  kthread_failed = false;
  kthread_error = negsuc 11;
  register_mmput = pos 0;
  register_execve = negsuc 1;
}

async_mm_init-Resources_example :
    ((async_mm_init no_group nothing_held).1 ≡ pos 0)
      × ((async_mm_init no_group nothing_held).0 ≡ all_held)
    ⊎ ((async_mm_init no_group nothing_held).1 ≢ pos 0)
      × ((async_mm_init no_group nothing_held).0 ≡ nothing_held)
async_mm_init-Resources_example = async_mm_init-Resources no_group (λ e. cc)
