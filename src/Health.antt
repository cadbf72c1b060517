-- ===== src/Health.antt =====
-- syvert/resource_health.py: evidence of the health of account sessions, the admission of resources
-- by it, and the invalidation of an account that a lease holds.
pub mod Types
pub mod Redaction
pub mod Evidence
pub mod Admission
pub mod Findings
pub mod Split
pub mod Invalidation
