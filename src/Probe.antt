-- ===== src/Probe.antt =====
-- cs614/exec_memory_teardown_opt_2/time.c: the module that times exec and the teardown after it.
pub mod Handlers
pub mod Lifecycle
pub mod Pairing
mod Examples
