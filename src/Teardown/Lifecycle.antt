-- ===== src/Teardown/Lifecycle.antt =====
-- `async_mm_init` and `async_mm_exit`: what the module holds of the kernel's resources.
use mtech.Prelude.{Bool, true, false, not, if◌then◌else◌, ◌≡◌, ◌≢◌, ◌⊎◌, arith}
use mtech.Prelude.Int.{ℤ, pos, negsuc, eqb_ℤ}
use mtech.Teardown.State.{Symbols, State, MmCountApi}
use mtech.Teardown.Worker.{flush, worker_turn}

-- What is registered with the kernel.
pub record Resources : Type 0 where
  pub kobj : Bool
  pub sysfs_group : Bool
  pub kthread : Bool
  pub mmput_probe : Bool
  pub execve_probe : Bool

abbrev pub nothing_held : Resources
nothing_held = record {
  kobj = false;
  sysfs_group = false;
  kthread = false;
  mmput_probe = false;
  execve_probe = false;
}

abbrev pub all_held : Resources
all_held = record {
  kobj = true;
  sysfs_group = true;
  kthread = true;
  mmput_probe = true;
  execve_probe = true;
}

-- What the kernel answers to each registration. `kthread_run` fails with a code; the pointer that
-- it gives on success is no error.
pub record Answers : Type 0 where
  pub register_kallsyms : ℤ
  pub found_exit_mmap : Bool
  pub created_kobj : Bool
  pub create_group : ℤ
  pub kthread_failed : Bool
  pub kthread_error : ℤ
  pub register_mmput : ℤ
  pub register_execve : ℤ

abbrev pub is_negative : ℤ → Bool
is_negative (pos _) = false
is_negative (negsuc _) = true

abbrev pub enoent : ℤ
enoent = negsuc 1

abbrev pub enomem : ℤ
enomem = negsuc 11

unfoldable pub resolve_kallsyms : Answers → ℤ
resolve_kallsyms ans = if is_negative ans.register_kallsyms then ans.register_kallsyms else pos 0

unfoldable pub resolve_symbols : Answers → ℤ
resolve_symbols ans = if not ans.found_exit_mmap then enoent else pos 0

unfoldable pub async_mm_init : Answers → Resources → Resources × ℤ
async_mm_init ans r =
    if not (eqb_ℤ (resolve_kallsyms ans) (pos 0))
    then (r, resolve_kallsyms ans)
    else (if not (eqb_ℤ (resolve_symbols ans) (pos 0))
        then (r, resolve_symbols ans)
        else (if not ans.created_kobj
            then (r, enomem)
            else (let r1 = record r { kobj = true } in
                if not (eqb_ℤ ans.create_group (pos 0))
                then (record r1 { kobj = false }, ans.create_group)
                else (let r2 = record r1 { sysfs_group = true } in
                    if ans.kthread_failed
                    then (record r2 { sysfs_group = false; kobj = false }, ans.kthread_error)
                    else (let r3 = record r2 { kthread = true } in
                        if not (eqb_ℤ ans.register_mmput (pos 0))
                        then (
                          record r3 { kthread = false; sysfs_group = false; kobj = false },
                          ans.register_mmput,
                        )
                        else (let r4 = record r3 { mmput_probe = true } in
                            if is_negative ans.register_execve
                            then (
                              record r4 {
                                mmput_probe = false;
                                kthread = false;
                                sysfs_group = false;
                                kobj = false;
                              },
                              ans.register_execve,
                            )
                            else (record r4 { execve_probe = true }, pos 0)))))))

-- The worker may take one more turn between the `wake_up` and its end (`last_turn`); what it leaves
-- is torn down here.
unfoldable pub async_mm_exit : MmCountApi → Symbols → Bool → Resources → State → Resources × State
async_mm_exit api fn last_turn r s =
    let s' = if last_turn then worker_turn api fn s else s in
    (
      record r {
        mmput_probe = false;
        execve_probe = false;
        kthread = false;
        sysfs_group = false;
        kobj = false;
      },
      flush api fn s'.work_list s',
    )

-- Loading is all or nothing: with the result 0 everything is registered, with any other nothing is.
pub async_mm_init-Resources :
    (ans : Answers)
    → ans.kthread_error ≢ pos 0
    → ((async_mm_init ans nothing_held).1 ≡ pos 0) × ((async_mm_init ans nothing_held).0 ≡ all_held)
      ⊎ ((async_mm_init ans nothing_held).1 ≢ pos 0)
        × ((async_mm_init ans nothing_held).0 ≡ nothing_held)
unfolding async_mm_init resolve_kallsyms resolve_symbols
async_mm_init-Resources ans h = ground arith
