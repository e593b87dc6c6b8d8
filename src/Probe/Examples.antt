-- ===== src/Probe/Examples.antt =====
-- A run of the module, and the theorems at concrete inputs.
use mtech.Prelude.{◌⊎◌, ◌-◌, ◌≡◌, refl, true, false, if◌then◌else◌, List, [], ◌∷◌, arith}
use mtech.Probe.Handlers.{
  Task, execve_entered, execve_returned, deferred_mmput_entered, deferred_mmput_returned,
  exit_mmap_entered, exit_mmap_returned, pid_set, Module, is_other, started, execve_entry,
  execve_ret, Event, store, execve_enters, execve_returns, deferred_mmput_enters,
  deferred_mmput_returns, exit_mmap_enters, exit_mmap_returns, run,
}
use mtech.Probe.Lifecycle.{
  everything, leftovers, failed, Answers, nothing, exec_probe_init, exec_probe_exit,
  exec_probe_init-Held,
}
use mtech.Probe.Pairing.{execve_ret-own}

abbrev loaded : Module
loaded = record {
  target_pid = 0;
  target_old_mm = 0;
  execve = λ i. record { start_ns = 0; pid = 0; comm = 0 };
  deferred_mmput = λ i. record { start_ns = 0; pid = 0; comm = 0 };
  exit_mmap = λ i. record { start_ns = 0; mm = 0; matched = false };
  printed = [];
}

abbrev shell : Task
shell = record { pid = 41; tgid = 41; comm = 7; mm = 900 }

abbrev editor : Task
editor = record { pid = 50; tgid = 50; comm = 8; mm = 901 }

-- An exec of the target whose old address space a worker tears down after the return.
abbrev one_exec : List Event
one_exec =
    store 41
    ∷ (execve_enters 0 shell 100
        ∷ (deferred_mmput_enters 0 shell 120
            ∷ (deferred_mmput_returns 0 125
                ∷ (execve_returns 0 150
                    ∷ (exit_mmap_enters 0 900 3 160
                        ∷ (exit_mmap_returns 0 3 190 ∷ (exit_mmap_enters 1 900 3 200 ∷ [])))))))

one_exec_printed :
    (run one_exec loaded).printed
    ≡ exit_mmap_returned (record { start_ns = 160; mm = 900; matched = true }) 3 190 30
      ∷ (exit_mmap_entered 900 3 160
          ∷ (execve_returned (started shell 100) 150 50
              ∷ (deferred_mmput_returned (started shell 120) 125 5
                  ∷ (deferred_mmput_entered (started shell 120)
                      ∷ (execve_entered (started shell 100) 900 ∷ (pid_set 41 ∷ []))))))
unfolding run
one_exec_printed = refl

-- A second exec of the target before the teardown: the first teardown is not reported.
second_exec :
    let events =
      store 41
      ∷ (execve_enters 0 shell 100
          ∷ (execve_enters 1 (record shell { mm = 902 }) 110
              ∷ (exit_mmap_enters 0 900 3 120 ∷ []))) in
    (run events loaded).printed
    ≡ execve_entered (started shell 110) 902
      ∷ (execve_entered (started shell 100) 900 ∷ (pid_set 41 ∷ []))
unfolding run
second_exec = refl

abbrev targeted : Module
targeted = record loaded { target_pid = 41 }

-- While the call is on, the target is changed and another task execs.
abbrev meanwhile : List Event
meanwhile = store 50 ∷ (execve_enters 1 editor 120 ∷ (execve_returns 1 130 ∷ []))

execve_ret-own_example :
    let between = run meanwhile (execve_entry 0 shell 100 targeted) in
    (execve_ret 0 150 between).printed ≡ (
      if is_other targeted shell
      then between.printed
      else execve_returned (started shell 100) 150 (150 - 100) ∷ between.printed)
execve_ret-own_example =
    execve_ret-own 0 shell 100 150 meanwhile targeted refl (omega arith) (omega arith) (omega arith)

abbrev last_fails : Answers
last_fails = record {
  kobject_created = true;
  file_created = true;
  execve_registered = true;
  deferred_mmput_registered = true;
  exit_mmap_registered = false;
}

exec_probe_init-Held_example :
    let loaded = exec_probe_init last_fails in
    (false ≡ true)
      × (loaded ≡ record { succeeded = true; held = everything })
      × (exec_probe_exit loaded.held ≡ nothing)
    ⊎ (false ≡ false) × (loaded ≡ failed (leftovers true))
exec_probe_init-Held_example = exec_probe_init-Held last_fails
