-- ===== src/Task.antt =====
-- module/task_state.py: the task states that the Web console shows, and their store.
pub mod Status
pub mod Snapshot
pub mod Tables
pub mod Store
pub mod Counts
pub mod Guard
pub mod Node
pub mod Recovery
pub mod Restart
pub mod Loading
pub mod Pages
mod Tests
