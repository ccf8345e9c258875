-- ===== src/Academics.antt =====
-- The question bank (academics): questions, their options and what students have answered.
pub mod Models
pub mod Statistics
pub mod Batches
