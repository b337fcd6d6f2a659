-- ===== src/ThreadPool.antt =====
-- src/threadpool_scheduler.cpp: the worker threads of a pool, their queues, and the threads that
-- schedule tasks or destroy the pool. Each section under `lock` is one step, and so is each
-- operation of a work_steal_queue, of which one side is the thread's own.
pub mod State
pub mod Steps
pub mod Inv
pub mod Kept
pub mod Safe
pub mod Bound
pub mod Spawn
mod Examples
