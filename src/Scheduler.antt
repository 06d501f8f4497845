-- ===== src/Scheduler.antt =====
-- src/scheduler/task_scheduler.cpp. Times of the wall clock are seconds where the code stores them
-- as date-time texts, and milliseconds elsewhere.
pub mod Retry
pub mod Outcome
pub mod LockRenewer
pub mod World
pub mod Execute
pub mod Dispatch
pub mod Job
pub mod Scan
