-- ===== src/Probe/Handlers.antt =====
-- The globals, the handlers of the three kretprobes and the store of target_pid.
use mtech.Prelude.{
  ℕ, ◌+◌, ◌-◌, ◌%◌, ◌^◌, Bool, true, false, not, ◌&&◌, ◌==◌, if◌then◌else◌, List, [], ◌∷◌,
}
use mtech.Prelude.Family.{update}

-- What the handlers read of `current`; a comm is a number, and so is an mm_struct's address.
pub record Task : Type 0 where
  pub pid : ℕ
  pub tgid : ℕ
  pub comm : ℕ
  pub mm : ℕ

-- struct probe_data
pub record ProbeData : Type 0 where
  pub start_ns : ℕ
  pub pid : ℕ
  pub comm : ℕ

-- struct exit_mmap_data
pub record ExitMmapData : Type 0 where
  pub start_ns : ℕ
  pub mm : ℕ
  pub matched : Bool

-- The lines that are printed, with what they print.
pub data Message : Type 0 where
  execve_entered : ProbeData → ℕ → Message
  execve_returned : ProbeData → ℕ → ℕ → Message
  deferred_mmput_entered : ProbeData → Message
  deferred_mmput_returned : ProbeData → ℕ → ℕ → Message
  exit_mmap_entered : ℕ → ℕ → ℕ → Message
  exit_mmap_returned : ExitMmapData → ℕ → ℕ → ℕ → Message
  pid_set : ℕ → Message

-- The globals, the data of the calls that are probed, by a number for each call, and what has been
-- printed, the last line first.
pub record Module : Type 0 where
  pub target_pid : ℕ
  pub target_old_mm : ℕ
  pub execve : ℕ → ProbeData
  pub deferred_mmput : ℕ → ProbeData
  pub exit_mmap : ℕ → ExitMmapData
  pub printed : List Message

abbrev pub null : ℕ
null = 0

-- `end_ns - start_ns` on u64.
abbrev pub sub_u64 : ℕ → ℕ → ℕ
sub_u64 a b = (a + 2 ^ 64 - b) % 2 ^ 64

-- `sscanf(buf, "%d", &target_pid)`: what it reads, where it reads a number.
unfoldable pub pid_store : ℕ → Module → Module
pid_store n m = record m { target_pid = n; target_old_mm = null; printed = pid_set n ∷ m.printed }

-- `current->pid != target_pid && current->tgid != target_pid`
abbrev pub is_other : Module → Task → Bool
is_other m task = not (task.pid == m.target_pid) && not (task.tgid == m.target_pid)

abbrev pub started : Task → ℕ → ProbeData
started task now = record { start_ns = now; pid = task.pid; comm = task.comm }

unfoldable pub execve_entry : ℕ → Task → ℕ → Module → Module
execve_entry i task now m =
    if is_other m task
    then record m { execve = update m.execve i (record (m.execve i) { start_ns = 0 }) }
    else record m {
      execve = update m.execve i (started task now);
      target_old_mm = task.mm;
      printed = execve_entered (started task now) task.mm ∷ m.printed;
    }

unfoldable pub execve_ret : ℕ → ℕ → Module → Module
execve_ret i now m =
    let d = m.execve i in
    if d.start_ns == 0
    then m
    else record m { printed = execve_returned d now (sub_u64 now d.start_ns) ∷ m.printed }

unfoldable pub deferred_mmput_entry : ℕ → Task → ℕ → Module → Module
deferred_mmput_entry i task now m =
    if is_other m task
    then record m {
      deferred_mmput = update m.deferred_mmput i (record (m.deferred_mmput i) { start_ns = 0 });
    }
    else record m {
      deferred_mmput = update m.deferred_mmput i (started task now);
      printed = deferred_mmput_entered (started task now) ∷ m.printed;
    }

unfoldable pub deferred_mmput_ret : ℕ → ℕ → Module → Module
deferred_mmput_ret i now m =
    let d = m.deferred_mmput i in
    if d.start_ns == 0
    then m
    else record m { printed = deferred_mmput_returned d now (sub_u64 now d.start_ns) ∷ m.printed }

unfoldable pub exit_mmap_entry : ℕ → ℕ → ℕ → ℕ → Module → Module
exit_mmap_entry i mm worker now m =
    if not (m.target_old_mm == null) && mm == m.target_old_mm
    then record m {
      exit_mmap = update m.exit_mmap i (record { start_ns = now; mm = mm; matched = true });
      printed = exit_mmap_entered mm worker now ∷ m.printed;
    }
    else record m { exit_mmap = update m.exit_mmap i (record (m.exit_mmap i) { matched = false }) }

unfoldable pub exit_mmap_ret : ℕ → ℕ → ℕ → Module → Module
exit_mmap_ret i worker now m =
    let d = m.exit_mmap i in
    if not d.matched then m else record m {
      printed = exit_mmap_returned d worker now (sub_u64 now d.start_ns) ∷ m.printed;
      target_old_mm = null;
    }

-- What happens to the module, for the call with the number.
pub data Event : Type 0 where
  store : ℕ → Event
  execve_enters : ℕ → Task → ℕ → Event
  execve_returns : ℕ → ℕ → Event
  deferred_mmput_enters : ℕ → Task → ℕ → Event
  deferred_mmput_returns : ℕ → ℕ → Event
  exit_mmap_enters : ℕ → ℕ → ℕ → ℕ → Event
  exit_mmap_returns : ℕ → ℕ → ℕ → Event

unfoldable pub handle : Event → Module → Module
unfolding pid_store execve_entry execve_ret deferred_mmput_entry deferred_mmput_ret exit_mmap_entry
    exit_mmap_ret
handle (store n) = pid_store n
handle (execve_enters i task now) = execve_entry i task now
handle (execve_returns i now) = execve_ret i now
handle (deferred_mmput_enters i task now) = deferred_mmput_entry i task now
handle (deferred_mmput_returns i now) = deferred_mmput_ret i now
handle (exit_mmap_enters i mm worker now) = exit_mmap_entry i mm worker now
handle (exit_mmap_returns i worker now) = exit_mmap_ret i worker now

unfoldable pub run : List Event → Module → Module
unfolding handle
run [] m = m
run (e ∷ events) m = run events (handle e m)
