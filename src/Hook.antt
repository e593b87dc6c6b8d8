-- ===== src/Hook.antt =====
-- cs614/multi_thread_opt/exec_hook.c and the wrappers of kernel_modification/fs/exec_timing.h: the
-- call-graph tracer of exec.
pub mod State
pub mod Trace
pub mod Sysfs
pub mod Tree
pub mod Balance
pub mod Log
pub mod Buffer
mod Examples
