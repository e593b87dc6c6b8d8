-- ===== src/Teardown/Worker.antt =====
-- `mm_destroy_worker`, and the loop of `async_mm_exit` that empties the list.
use mtech.Prelude.{ℕ, zero, suc, ◌+◌, length, List, ◌∷◌, [], ◌++◌, ltb, leb, if◌then◌else◌}
use mtech.Teardown.State.{
  MmWork, Call, Callee, Symbols, State, MmCountApi, atomic_dec, set_users, set_count,
}
use mtech.Teardown.Handler.{when}

-- The calls of the worker for one entry of the list.
abbrev pub teardown_calls : Symbols → ℕ → List Call
teardown_calls fn a =
    record { callee = Callee.exit_mmap; mm = a }
    ∷ (when fn.fn_ksm_exit (record { callee = Callee.ksm_exit; mm = a } ∷ [])
        ++ (when fn.fn_khugepaged_exit (record { callee = Callee.khugepaged_exit; mm = a } ∷ [])
            ++ (when fn.fn_exit_aio (record { callee = Callee.exit_aio; mm = a } ∷ [])
                ++ record { callee = Callee.mmdrop; mm = a } ∷ [])))

module _ (api : MmCountApi) (fn : Symbols) where
  -- One entry: the calls, `atomic_dec(&mm->mm_users)` and `mmdrop`.
  unfoldable pub tear_down : ℕ → State → State
  tear_down a s =
      let called = record s { calls = s.calls ++ teardown_calls fn a } in
      let released = set_users a (atomic_dec (called.mms a).mm_users) called in
      set_count a (api.drop (released.mms a).mm_count) released

  -- A round of the inner loop on the entry `work`, up to the batch boundary.
  unfoldable pub destroy : MmWork → State → State
  destroy work s =
      let done = tear_down work.mm s in
      record done { stats = record (s.stats) { completed = s.stats.completed + 1 } }

  unfoldable pub end_batch : State → State
  end_batch s = record s { stats = record (s.stats) { batches = s.stats.batches + 1 } }

  -- A round of the inner loop: the state and `processed_in_batch` behind it.
  unfoldable pub drain_round : MmWork → List MmWork → ℕ → State → State × ℕ
  drain_round work rest processed s =
      let s' = destroy work (record s { work_list = rest }) in
      if leb s.tunables.batch_size (processed + 1) then (end_batch s', 0) else (s', processed + 1)

  -- The inner loop, `n` rounds of it at most: it stops where the list is empty.
  unfoldable pub drain : ℕ → ℕ → State → State × ℕ
  drain zero processed s = (s, processed)
  drain (suc n) processed s = elim s.work_list [
    | [] ↦ (s, processed)
    | work ∷ rest ↦
        let (s', processed') = drain_round work rest processed s in drain n processed' s'
  ]

  -- A turn of the outer loop, once the worker is awake, with a round for each entry.
  unfoldable pub worker_turn : State → State
  worker_turn s =
      let (s', processed) = drain (length s.work_list) 0 s in
      if ltb 0 processed then end_batch s' else s'

  -- `list_for_each_entry_safe` of `async_mm_exit` over the entries: no counters.
  unfoldable pub flush : List MmWork → State → State
  flush [] s = s
  flush (work ∷ rest) s = flush rest (tear_down work.mm (record s { work_list = rest }))
