-- ===== src/Service.antt =====
-- mobile/src/features/service: requests for service of a machine.
pub mod IntakeStore
pub mod Submission
pub mod Intake
