-- ===== src/Tests.antt =====
-- Sample data, runs of the program on it, and an application of each theorem to it.
pub mod Program
pub mod Samples
pub mod Runs
pub mod Derived
pub mod Witnesses
pub mod Steps
pub mod HealthSteps
