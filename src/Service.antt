-- ===== src/Service.antt =====
-- `acquire` and `release` of syvert/resource_lifecycle.py against a store that other processes use.
pub mod World
pub mod Faults
pub mod Writes
pub mod Acquire
pub mod Release
pub mod Quiet
