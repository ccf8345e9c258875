-- ===== src/Exams.antt =====
-- The exam application (tests_app): its tables, the schedule of a session and who may see an exam.
pub mod Models
pub mod Schedule
pub mod Access
pub mod Frozen
pub mod Scoring
pub mod Lifecycle
pub mod Answering
pub mod Gates
pub mod Starting
