-- ===== src/Lifecycle.antt =====
-- syvert/resource_lifecycle.py, a module for each group of its functions.
pub mod Types
pub mod Records
pub mod Snapshot
pub mod Requests
pub mod Failures
pub mod Selection
pub mod Transitions
pub mod Tracing
pub mod Codec
