-- ===== src/Teardown/Deferral.antt =====
-- A call of `mmput` with the probe in place, against the same call without it.
use mtech.Prelude.{
  ℕ, ◌+◌, ◌≡◌, ap, ◌∙◌, Bool, true, false, not, ◌&&◌, some, ◌∷◌, [], ◌++◌, leb, ◌==◌, arith, ◌⊎◌,
  inl, inr, Bool-cases,
}
use mtech.Teardown.State.{Stats, State, MmCountApi, hot_path_bypass_pages}
use mtech.Teardown.Handler.{
  Env, low_memory, filtered_out, final_mmput, mmput, intercept, mmput_pre_handler, probed_mmput,
}

-- The documented conditions of an interception, in one place.
abbrev pub defers : Env → ℕ → State → Bool
defers env a s =
    s.tunables.enabled
    && (leb hot_path_bypass_pages (s.mms a).total_vm
        && (((s.mms a).mm_users == 1)
            && (not (filtered_out env s.tunables)
                && (leb s.tunables.min_vm_pages (s.mms a).total_vm
                    && (not (low_memory env s.tunables) && env.allocated)))))

module _ (api : MmCountApi) (env : Env) (a : ℕ) (s : State) where
  pub handler_defers :
      defers env a s ≡ true → mmput_pre_handler api env (some a) s ≡ intercept api env a s
  unfolding mmput_pre_handler
  handler_defers h = ground arith

  handler_passes :
      defers env a s ≡ false
      → mmput_pre_handler api env (some a) s
        ≡ record s { stats = (mmput_pre_handler api env (some a) s).stats }
  unfolding mmput_pre_handler
  handler_passes h = ground arith

  pub mmput-stats :
      (st : Stats) → mmput api a (record s { stats = st }) ≡ record (mmput api a s) { stats = st }
  unfolding mmput final_mmput
  mmput-stats st = ground arith

  -- What `mmput` sees behind an interception.
  abbrev pub Deferred : State → Type 0
  Deferred s' =
      (s'.calls ≡ s.calls)
      × (s'.work_list
          ≡ s.work_list
            ++ record {
              mm = a;
              pid = env.pid;
              vm_pages = (s.mms a).total_vm;
              comm = env.comm;
              enqueue_ns = env.now_ns;
            }
              ∷ [])
      × ((s'.mms a).mm_users ≡ 1)
      × ((s'.mms a).mm_count ≡ api.grab (s.mms a).mm_count)
      × (s'.stats.intercepted ≡ s.stats.intercepted + 1)

  mmput-intercept : (s.mms a).mm_users ≡ 1 → Deferred (mmput api a (intercept api env a s))
  unfolding mmput intercept
  mmput-intercept h = (ground arith, ground arith, ground arith, ground arith, ground arith)

  pub defers-users : defers env a s ≡ true → (s.mms a).mm_users ≡ 1
  defers-users h = ground arith

  -- Where the conditions hold, the call leaves the address space alive and in the list: nothing is
  -- called, one user is left, and there is one more reference on the structure.
  pub probed_mmput-defers : defers env a s ≡ true → Deferred (probed_mmput api env a s)
  unfolding probed_mmput
  probed_mmput-defers h = rw (handler_defers h) (mmput-intercept (defers-users h))

  -- Where one of them fails, the call does what it does with no probe, counters of the module aside.
  pub probed_mmput-passes :
      defers env a s ≡ false
      → probed_mmput api env a s
        ≡ record (mmput api a s) { stats = (mmput_pre_handler api env (some a) s).stats }
  unfolding probed_mmput
  probed_mmput-passes h = ap (mmput api a) (handler_passes h) ∙ mmput-stats _

  mmput-work_list : (mmput api a s).work_list ≡ s.work_list
  unfolding mmput final_mmput
  mmput-work_list = ground arith

  passes-intercepted :
      defers env a s ≡ false
      → (mmput_pre_handler api env (some a) s).stats.intercepted ≡ s.stats.intercepted
  unfolding mmput_pre_handler
  passes-intercepted h = ground arith

  -- What a call leaves, with the probe in place.
  abbrev pub Cases : State → Type 0
  Cases s' =
      (defers env a s ≡ true) × Deferred s'
      ⊎ (defers env a s ≡ false)
        × (s'.mms ≡ (mmput api a s).mms)
        × (s'.calls ≡ (mmput api a s).calls)
        × (s'.work_list ≡ s.work_list)
        × (s'.stats.intercepted ≡ s.stats.intercepted)

  -- The probe defers a put exactly under the conditions that the module documents, all seven of them.
  -- Then nothing is called, the address space is appended to the list with one user left and one more
  -- reference on the structure, and the interception is counted. Otherwise the counters and the calls
  -- are those of `mmput` with no probe, the list is what it was and no interception is counted.
  pub probed_mmput-Cases : Cases (probed_mmput api env a s)
  unfolding probed_mmput
  probed_mmput-Cases = elim (Bool-cases (defers env a s)) [
    | inl h ↦ inl (h, probed_mmput-defers h)
    | inr h ↦
        let e = probed_mmput-passes h in
        inr (
          h,
          ap (λ (t : State). t.mms) e,
          ap (λ (t : State). t.calls) e,
          ap (λ (t : State). t.work_list) e ∙ mmput-work_list,
          ap (λ (t : State). t.stats.intercepted) e ∙ passes-intercepted h,
        )
  ]
