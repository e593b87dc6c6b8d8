-- ===== src/Exec.antt =====
-- cs614/multi_thread_opt/kernel_modification: how exec gets rid of the other threads (de_thread in
-- fs/exec.c, zap_other_threads in kernel/signal.c), and how threads exit (kernel/exit.c), with the
-- early wake-up that the project adds.
pub mod State
pub mod Exit
pub mod Dethread
pub mod System
pub mod Members
pub mod Zap
pub mod Invariant
pub mod Waits
pub mod Complete
pub mod Rank
pub mod Ends
pub mod Hang
pub mod TakeOver
pub mod Zombie
pub mod Parked
mod Examples
