-- ===== src/FlowHost.antt =====
-- packages/flow-host: the store of flow runs, the changes of a run, and the pruning of runs.
pub mod Runs
pub mod Transitions
pub mod Traces
pub mod Pruning
mod Tests
