-- ===== src/Probe/Lifecycle.antt =====
-- Loading and unloading.
use mtech.Prelude.{◌≡◌, Bool, true, false, not, ◌&&◌, if◌then◌else◌, ◌⊎◌, arith}

-- What the module holds of the kernel: the kobject, the file in it, and the three probes.
pub record Held : Type 0 where
  pub kobject : Bool
  pub file : Bool
  pub execve : Bool
  pub deferred_mmput : Bool
  pub exit_mmap : Bool

abbrev pub nothing : Held
nothing = record {
  kobject = false;
  file = false;
  execve = false;
  deferred_mmput = false;
  exit_mmap = false;
}

-- Whether each of the kernel's functions succeeds.
pub record Answers : Type 0 where
  pub kobject_created : Bool
  pub file_created : Bool
  pub execve_registered : Bool
  pub deferred_mmput_registered : Bool
  pub exit_mmap_registered : Bool

-- Whether the module loads, and what it holds then.
pub record Loaded : Type 0 where
  pub succeeded : Bool
  pub held : Held

abbrev pub failed : Held → Loaded
failed h = record { succeeded = false; held = h }

unfoldable pub exec_probe_init : Answers → Loaded
exec_probe_init a =
    let with_kobject = record nothing { kobject = true } in
    let with_file = record with_kobject { file = true } in
    let with_execve = record with_file { execve = true } in
    let with_deferred_mmput = record with_execve { deferred_mmput = true } in
    if not a.kobject_created
    then failed nothing
    else (if not a.file_created
        then failed (record with_kobject { kobject = false })
        else (if not a.execve_registered
            then failed with_file
            else (if not a.deferred_mmput_registered
                then failed (record with_execve { execve = false })
                else (if not a.exit_mmap_registered
                    then failed
                        (record with_deferred_mmput { execve = false; deferred_mmput = false })
                    else record {
                      succeeded = true;
                      held = record with_deferred_mmput { exit_mmap = true };
                    }))))

unfoldable pub exec_probe_exit : Held → Held
exec_probe_exit h =
    let unregistered = record h { execve = false; deferred_mmput = false; exit_mmap = false } in
    record unregistered { file = false; kobject = false }

abbrev pub everything : Held
everything = record {
  kobject = true;
  file = true;
  execve = true;
  deferred_mmput = true;
  exit_mmap = true;
}

-- What is held where the registration of a probe has failed.
abbrev pub leftovers : Bool → Held
leftovers both = record nothing { kobject = both; file = both }

-- The module loads exactly where each of the five functions of the kernel succeeds, and holds the
-- kobject, the file and the three probes then, which unloading gives back. Where it does not load, it
-- holds no probe, but the kobject and its file stay exactly where both have been created, that is,
-- where the registration of a probe has failed.
pub exec_probe_init-Held :
    (a : Answers)
    → let loaded = exec_probe_init a in
      let both = a.kobject_created && a.file_created in
      let all =
        both && (a.execve_registered && (a.deferred_mmput_registered && a.exit_mmap_registered)) in
      (all ≡ true)
        × (loaded ≡ record { succeeded = true; held = everything })
        × (exec_probe_exit loaded.held ≡ nothing)
      ⊎ (all ≡ false) × (loaded ≡ failed (leftovers both))
unfolding exec_probe_init exec_probe_exit
exec_probe_init-Held a = ground arith
