-- ===== src/Store.antt =====
-- syvert/resource_lifecycle_store.py and syvert/resource_trace_store.py over a disk with two files.
pub mod Disk
pub mod TraceStore
pub mod LifecycleStore
pub mod Seeding
