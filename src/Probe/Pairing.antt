-- ===== src/Probe/Pairing.antt =====
-- A return is reported with the data of its own entry, whatever happens in between.
use mtech.Prelude.{
  ℕ, ◌-◌, ◌^◌, ◌≤◌, ◌<◌, ◌≡◌, refl, ◌∙◌, ap, Bool, true, false, ◌||◌, ◌==◌, if◌then◌else◌, List, [],
  ◌∷◌, arith, Bool-cases, inl, inr,
}
use mtech.Probe.Handlers.{
  Task, ProbeData, execve_returned, Module, sub_u64, is_other, started, pid_store, execve_entry,
  execve_ret, deferred_mmput_entry, deferred_mmput_ret, exit_mmap_entry, exit_mmap_ret, Event,
  store, execve_enters, execve_returns, deferred_mmput_enters, deferred_mmput_returns,
  exit_mmap_enters, exit_mmap_returns, handle, run,
}

-- Whether a call of exec with the number is entered.
abbrev enters : ℕ → Event → Bool
enters i (execve_enters j task now) = j == i
enters i (store n) = false
enters i (execve_returns j now) = false
enters i (deferred_mmput_enters j task now) = false
enters i (deferred_mmput_returns j now) = false
enters i (exit_mmap_enters j mm worker now) = false
enters i (exit_mmap_returns j worker now) = false

abbrev pub any_enters : ℕ → List Event → Bool
any_enters i [] = false
any_enters i (e ∷ events) = enters i e || any_enters i events

handle-execve :
    (i : ℕ) (e : Event) (m : Module) → enters i e ≡ false → (handle e m).execve i ≡ m.execve i
unfolding handle pid_store execve_entry execve_ret deferred_mmput_entry deferred_mmput_ret
    exit_mmap_entry exit_mmap_ret
handle-execve i (store n) m h = refl
handle-execve i (execve_enters j task now) m h = ground arith
handle-execve i (execve_returns j now) m h = ground arith
handle-execve i (deferred_mmput_enters j task now) m h = ground arith
handle-execve i (deferred_mmput_returns j now) m h = ground arith
handle-execve i (exit_mmap_enters j mm worker now) m h = ground arith
handle-execve i (exit_mmap_returns j worker now) m h = ground arith

run-execve :
    (i : ℕ) (events : List Event) (m : Module)
    → any_enters i events ≡ false
    → (run events m).execve i ≡ m.execve i
unfolding run
run-execve i [] m h = refl
run-execve i (e ∷ events) m h =
    run-execve i events (handle e m) (ground arith) ∙ handle-execve i e m (ground arith)

execve_entry-own :
    (i : ℕ) (task : Task) (now : ℕ) (m : Module)
    → (is_other m task ≡ true → ((execve_entry i task now m).execve i).start_ns ≡ 0)
      × (is_other m task ≡ false → (execve_entry i task now m).execve i ≡ started task now)
unfolding execve_entry
execve_entry-own i task now m = ((λ h. ground arith), (λ h. ground arith))

execve_ret-silent :
    (i now : ℕ) (m : Module) → (m.execve i).start_ns ≡ 0 → (execve_ret i now m).printed ≡ m.printed
unfolding execve_ret
execve_ret-silent i now m h = ground arith

execve_ret-prints :
    (i now : ℕ) (d : ProbeData) (m : Module)
    → m.execve i ≡ d
    → 0 < d.start_ns
    → (execve_ret i now m).printed ≡ execve_returned d now (sub_u64 now d.start_ns) ∷ m.printed
unfolding execve_ret
execve_ret-prints i now d m e h = rw e (ground arith)

-- A call of exec that is entered after the time 0 and returns later, on 64 bits, with any other
-- events in between: where its task is the target at the entry, the return prints the data of that
-- entry and the time from the entry to the return; where it is not, nothing is printed.
pub execve_ret-own :
    (i : ℕ) (task : Task) (start end : ℕ) (events : List Event) (m : Module)
    → any_enters i events ≡ false
    → 0 < start
    → start ≤ end
    → end < 2 ^ 64
    → let between = run events (execve_entry i task start m) in
      (execve_ret i end between).printed ≡ (
        if is_other m task
        then between.printed
        else execve_returned (started task start) end (end - start) ∷ between.printed)
execve_ret-own i task start end events m h some_start later small =
    let between = run events (execve_entry i task start m) in
    let own = run-execve i events (execve_entry i task start m) h in
    let elapsed : sub_u64 end start ≡ end - start = omega arith in
    let (skipped, taken) = execve_entry-own i task start m in
    elim (Bool-cases (is_other m task)) [
      | inl other ↦
          rw other (execve_ret-silent i end between (ap (λ d. d.start_ns) own ∙ skipped other))
      | inr target ↦ rw target (
          execve_ret-prints i end (started task start) between (own ∙ taken target) some_start
          ∙ ap (λ n. execve_returned (started task start) end n ∷ between.printed) elapsed)
    ]
