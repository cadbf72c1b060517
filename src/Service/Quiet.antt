-- ===== src/Service/Quiet.antt =====
-- `acquire` and `release` where no other process writes.
pub mod Release
pub mod Acquire
