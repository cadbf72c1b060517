-- ===== src/Trace.antt =====
-- syvert/resource_trace.py and syvert/resource_trace_store.py.
pub mod Types
pub mod Events
pub mod Stream
pub mod Timeline
pub mod Merge
