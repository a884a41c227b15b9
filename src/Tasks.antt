-- ===== src/Tasks.antt =====
-- packages/context-server: tasks (long-running tool calls), their records, their store and their
-- manager.
pub mod Record
mod Tests
pub mod Changes
pub mod Store
pub mod Manager
pub mod Access
pub mod Handle
