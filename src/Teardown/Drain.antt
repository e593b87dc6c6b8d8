-- ===== src/Teardown/Drain.antt =====
-- What a turn of the worker does to the list that it finds.
use mtech.Prelude.{
  ℕ, ◌+◌, ◌*◌, ◌≤◌, ◌<◌, ◌≡◌, refl, ap, ◌∙◌, sym, ◌⊎◌, List, ◌∷◌, [], ◌++◌, ltb, arith, length,
  zero, suc, map, Bool, true, concat_map, Bool-cases, ltb→lt, ltb-false→le, inl, inr,
}
use mathlib.Core.List.{append_assoc, append-nil}
use mtech.Teardown.State.{MmWork, Call, Callee, Tunables, Symbols, State, MmCountApi}
use mtech.Teardown.Handler.{when}
use mtech.Teardown.Worker.{
  teardown_calls, tear_down, destroy, end_batch, drain_round, drain, worker_turn,
}

-- Whether the module has the address of a function of the cleanup.
abbrev resolved : Symbols → Callee → Bool
resolved fn Callee.ksm_exit = fn.fn_ksm_exit
resolved fn Callee.khugepaged_exit = fn.fn_khugepaged_exit
resolved fn Callee.exit_aio = fn.fn_exit_aio
resolved fn _ = true

-- The functions of the cleanup, in order, those left out whose symbols are missing.
abbrev pub cleanup : Symbols → List Callee
cleanup fn =
    concat_map (λ (c : Callee). when (resolved fn c) (c ∷ []))
      (Callee.exit_mmap ∷ Callee.ksm_exit ∷ Callee.khugepaged_exit ∷ Callee.exit_aio ∷ Callee.mmdrop
        ∷ [])

abbrev pub callees_of : Symbols → MmWork → List Call
callees_of fn w = map (λ (c : Callee). record { callee = c; mm = w.mm }) (cleanup fn)

abbrev pub all_calls : Symbols → List MmWork → List Call
all_calls fn ws = concat_map (callees_of fn) ws

pub teardown_calls-cleanup : (fn : Symbols) (w : MmWork) → teardown_calls fn w.mm ≡ callees_of fn w
teardown_calls-cleanup fn w = ground arith

module _ (api : MmCountApi) (fn : Symbols) where
  -- A round of the inner loop, with the tunables left alone.
  abbrev Round : MmWork → ℕ → State → State → ℕ → Type 0
  Round w k s s' k' =
      (s'.tunables ≡ s.tunables)
      × (s'.calls ≡ s.calls ++ callees_of fn w)
      × (s'.stats.completed ≡ s.stats.completed + 1)
      × ((s'.stats.batches ≡ s.stats.batches) × (k' ≡ k + 1) × (k + 1 < s.tunables.batch_size)
          ⊎ (s'.stats.batches ≡ s.stats.batches + 1) × (k' ≡ 0) × (s.tunables.batch_size ≤ k + 1))

  drain_round-Round :
      (w : MmWork) (ws : List MmWork) (k : ℕ) (s : State)
      → Round w k s (drain_round api fn w ws k s).0 (drain_round api fn w ws k s).1
  unfolding drain_round destroy tear_down end_batch
  drain_round-Round w ws k s =
      let e = teardown_calls-cleanup fn w in
      (ground arith, rw (sym e) (ground arith), ground arith, ground arith)

  drain-stops : (n k : ℕ) (s : State) → s.work_list ≡ [] → drain api fn n k s ≡ (s, k)
  unfolding drain
  drain-stops zero k s e = refl
  drain-stops (suc n) k s e = rw (e) refl

  drain-next :
      (w : MmWork) (ws : List MmWork) (n k : ℕ) (s : State)
      → s.work_list ≡ w ∷ ws
      → let (s', k') = drain_round api fn w ws k s in
        drain api fn (suc n) k s ≡ drain api fn n k' s'
  unfolding drain
  drain-next w ws n k s e = rw (e) refl

  drain_round-work_list :
      (w : MmWork) (ws : List MmWork) (k : ℕ) (s : State)
      → (drain_round api fn w ws k s).0.work_list ≡ ws
  unfolding drain_round destroy tear_down end_batch
  drain_round-work_list w ws k s = ground arith

  -- What the loop does to a list for whose entries it has rounds enough.
  abbrev Drained : List MmWork → ℕ → State → State × ℕ → Type 0
  Drained ws k s (s', k') =
      (s'.work_list ≡ [])
      × (s'.calls ≡ s.calls ++ all_calls fn ws)
      × (s'.stats.completed ≡ s.stats.completed + length ws)

  drain-Drained :
      (ws : List MmWork) (k : ℕ) (s : State)
      → s.work_list ≡ ws
      → Drained ws k s (drain api fn (length ws) k s)
  drain-Drained [] k s e = rw (drain-stops 0 k s e) (e, sym (append-nil s.calls), omega arith)
  drain-Drained (w ∷ ws) k s e =
      let (s', k') = drain_round api fn w ws k s in
      let r : Round w k s s' k' = drain_round-Round w ws k s in
      let rest = drain-Drained ws k' s' (drain_round-work_list w ws k s) in
      rw (drain-next w ws (length ws) k s e) (
        rest.0,
        rest.1
            ∙ ap (λ (cs : List Call). cs ++ all_calls fn ws) r.1
            ∙ append_assoc s.calls (callees_of fn w) (all_calls fn ws),
        omega (arith, rest.2),
      )

  -- The batches that are full, and the entries past the last of them.
  drain-batches :
      (b : ℕ) (ws : List MmWork) (k : ℕ) (s : State)
      → s.work_list ≡ ws
      → s.tunables.batch_size ≡ b
      → k < b
      → let (s', k') = drain api fn (length ws) k s in
        (s'.stats.batches * b + k' ≡ s.stats.batches * b + k + length ws) × (k' < b)
  drain-batches b [] k s l e h = rw (drain-stops 0 k s l) (omega arith, h)
  drain-batches b (w ∷ ws) k s l e h =
      let (s', k') = drain_round api fn w ws k s in
      let r : Round w k s s' k' = drain_round-Round w ws k s in
      let rest =
        drain-batches b ws k' s' (drain_round-work_list w ws k s)
          (ap (λ (t : Tunables). t.batch_size) r.0 ∙ e) (omega arith) in
      rw (drain-next w ws (length ws) k s l) (elim r.3 [
        | inl (same, next, _) ↦ (omega (arith, rest.0, ap (λ (n : ℕ). n * b) same), rest.1)
        | inr (more, reset, _) ↦ (omega (arith, rest.0, ap (λ (n : ℕ). n * b) more), rest.1)
      ])

  -- A turn, which has a round for each entry of the list, leaves the list empty. It tears the entries
  -- down in the order in which they came: for each, the calls of `exit_mmap`, of those of `ksm_exit`,
  -- `khugepaged_exit` and `exit_aio` whose symbols are resolved, and of `mmdrop`, in this order. It
  -- counts each entry.
  pub worker_turn-drains :
      (s : State)
      → ((worker_turn api fn s).work_list ≡ [])
        × ((worker_turn api fn s).calls ≡ s.calls ++ all_calls fn s.work_list)
        × ((worker_turn api fn s).stats.completed ≡ s.stats.completed + length s.work_list)
  unfolding worker_turn end_batch
  worker_turn-drains s = ground (arith, drain-Drained s.work_list 0 s refl)

  -- With a positive batch size a turn counts as many batches as the entries fill, the last one
  -- perhaps in part: their number, times the size, is the least multiple that covers the entries.
  pub worker_turn-batches :
      (s : State)
      → 0 < s.tunables.batch_size
      → (s.stats.batches * s.tunables.batch_size + length s.work_list
          ≤ (worker_turn api fn s).stats.batches * s.tunables.batch_size)
        × ((worker_turn api fn s).stats.batches * s.tunables.batch_size
            < s.stats.batches * s.tunables.batch_size + length s.work_list + s.tunables.batch_size)
  unfolding worker_turn end_batch
  worker_turn-batches s h =
      let b = s.tunables.batch_size in
      let r = drain-batches b s.work_list 0 s refl refl h in
      elim (Bool-cases (ltb 0 (drain api fn (length s.work_list) 0 s).1)) [
        | inl some_left ↦ rw (some_left, worker_turn) (omega (arith, r, ltb→lt 0 _ some_left))
        | inr none_left ↦ rw (none_left, worker_turn) (omega (arith, r, ltb-false→le 0 _ none_left))
      ]
