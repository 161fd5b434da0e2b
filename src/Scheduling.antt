-- ===== src/Scheduling.antt =====
-- Deferred work: the scheduler of timed events and the dispatcher that runs tasks.
pub mod Queue
pub mod ListQueue
pub mod Scheduler
pub mod Dispatcher
