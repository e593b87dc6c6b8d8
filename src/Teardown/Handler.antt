-- ===== src/Teardown/Handler.antt =====
-- `mmput_pre_handler` and the `mmput` behind it.
use mtech.Prelude.{
  ℕ, ◌+◌, ◌*◌, ◌/◌, ◌%◌, ◌^◌, Bool, false, not, ◌&&◌, Option, none, some, List, ◌∷◌, [], ◌++◌, ltb,
  ◌==◌, if◌then◌else◌,
}
use Prim.Native.String.{String}
use mtech.Prelude.Int.{pos, negsuc, eqb_ℤ}
use mtech.Prelude.Family.{update}
use mtech.Teardown.State.{
  Mm, MmWork, Call, Callee, Tunables, State, MmCountApi, hot_path_bypass_pages, atomic_inc,
  atomic_dec, set_users, set_count,
}

-- What the handler reads of the processor, of `si_meminfo`, `kmalloc` and the clock.
pub record Env : Type 0 where
  pub pid : ℕ
  pub tgid : ℕ
  pub comm : String
  pub freeram : ℕ
  pub mem_unit : ℕ
  pub allocated : Bool
  pub now_ns : ℕ

-- The product is one of 64-bit words.
unfoldable pub low_memory : Env → Tunables → Bool
low_memory env t = ltb (env.freeram * env.mem_unit % 2 ^ 64 / 2 ^ 10) t.oom_threshold_kb

unfoldable pub filtered_out : Env → Tunables → Bool
filtered_out env t =
    not (eqb_ℤ t.target_pid (negsuc 0))
    && not (eqb_ℤ (pos env.pid) t.target_pid)
    && not (eqb_ℤ (pos env.tgid) t.target_pid)

-- The list without the entries for absent parts.
abbrev pub when {ℓ} : {A : Type ℓ} → Bool → List A → List A
when b xs = if b then xs else []

-- What `__mmput` calls.
abbrev pub final_calls : Mm → ℕ → List Call
final_calls m a =
    record { callee = Callee.uprobe_clear_state; mm = a }
    ∷ record { callee = Callee.exit_aio; mm = a }
    ∷ record { callee = Callee.ksm_exit; mm = a }
    ∷ record { callee = Callee.khugepaged_exit; mm = a }
    ∷ record { callee = Callee.exit_mmap; mm = a }
    ∷ record { callee = Callee.mm_put_huge_zero_page; mm = a }
    ∷ record { callee = Callee.set_mm_exe_file; mm = a }
    ∷ (when m.on_mmlist (record { callee = Callee.mmlist_del; mm = a } ∷ [])
        ++ (when m.has_binfmt (record { callee = Callee.module_put; mm = a } ∷ [])
            ++ (record { callee = Callee.lru_gen_del_mm; mm = a }
                ∷ record { callee = Callee.mmdrop; mm = a }
                ∷ [])))

module _ (api : MmCountApi) where
  unfoldable pub final_mmput : ℕ → State → State
  final_mmput a s = record s {
    mms =
        update s.mms a
          (record (s.mms a) { mm_count = api.drop ((s.mms a).mm_count); on_mmlist = false });
    calls = s.calls ++ final_calls (s.mms a) a;
  }

  unfoldable pub mmput : ℕ → State → State
  unfolding final_mmput
  mmput a s =
      let s' = set_users a (atomic_dec (s.mms a).mm_users) s in
      if (s'.mms a).mm_users == 0 then final_mmput a s' else s'

  -- The end of the handler, past its last test.
  unfoldable pub intercept : Env → ℕ → State → State
  intercept env a s =
      let grabbed = set_count a (api.grab (s.mms a).mm_count) s in
      let bumped = set_users a (atomic_inc (grabbed.mms a).mm_users) grabbed in
      let work : MmWork = record {
        mm = a;
        pid = env.pid;
        vm_pages = (s.mms a).total_vm;
        comm = env.comm;
        enqueue_ns = env.now_ns;
      } in
      record bumped {
        work_list = s.work_list ++ work ∷ [];
        stats = record (s.stats) { intercepted = s.stats.intercepted + 1 };
      }

  unfoldable pub mmput_pre_handler : Env → Option ℕ → State → State
  unfolding intercept low_memory filtered_out
  mmput_pre_handler env none s = s
  mmput_pre_handler env (some a) s =
      let vm_pages = (s.mms a).total_vm in
      if not s.tunables.enabled
      then record s { stats = record (s.stats) { disabled_pass = s.stats.disabled_pass + 1 } }
      else (if ltb vm_pages hot_path_bypass_pages
          then record s { stats = record (s.stats) { hotpath_bypass = s.stats.hotpath_bypass + 1 } }
          else (if not ((s.mms a).mm_users == 1)
              then s
              else (if filtered_out env s.tunables
                  then s
                  else (if ltb vm_pages s.tunables.min_vm_pages
                      then record s {
                        stats = record (s.stats) { under_threshold = s.stats.under_threshold + 1 };
                      }
                      else (if low_memory env s.tunables
                          then record s {
                            stats = record (s.stats) { oom_fallback = s.stats.oom_fallback + 1 };
                          }
                          else (if not env.allocated then s else intercept env a s))))))

  -- A call of `mmput` with the probe in place.
  unfoldable pub probed_mmput : Env → ℕ → State → State
  probed_mmput env a s = mmput a (mmput_pre_handler env (some a) s)
