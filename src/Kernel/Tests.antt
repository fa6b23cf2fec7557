-- ===== src/Kernel/Tests.antt =====
-- Runs of the models of kernel/ on small task tables.
pub mod Samples
mod Sched
mod Calls
mod Clock
mod Print
mod Requests
