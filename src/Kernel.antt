-- ===== src/Kernel.antt =====
-- kernel/: the task table, the scheduler and the system calls on processes.
pub mod Task
pub mod Sched
pub mod Sleep
pub mod Sys
pub mod Kill
pub mod Wait
pub mod Fork
pub mod Clock
pub mod Print
pub mod Requests
mod Tests
