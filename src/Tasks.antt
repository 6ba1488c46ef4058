-- ===== src/Tasks.antt =====
-- The two threads that run the server's work: src/scheduler.cpp and src/tasks.cpp.
pub mod Scheduler
pub mod Dispatcher
