-- ===== src/Task.antt =====
-- include/async++/task_base.h, task.h: task objects, their states, and what runs them.
pub mod Types
pub mod Heap
pub mod Exec
pub mod Event
pub mod Inv
pub mod Safety
pub mod Steps
pub mod System
pub mod User
pub mod Examples
