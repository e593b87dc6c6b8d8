-- ===== src/Teardown.antt =====
-- cs614/exec_memory_teardown_opt/src/time.c: the module that defers the teardown of an address
-- space to a kernel thread, with the `mmput` of cs614/multi_thread_opt/kernel_modification/kernel/fork.c
-- that it probes.
pub mod State
pub mod Handler
pub mod Worker
pub mod Sysfs
pub mod Lifecycle
pub mod Deferral
pub mod Drain
pub mod Leak
mod Examples
