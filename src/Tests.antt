-- ===== src/Tests.antt =====
-- Runs of the code on small inputs, and each theorem at an input that meets its hypotheses.
mod Data
mod Exams
mod Access
mod Free
mod Decisions
mod Shop
mod Payments
mod Attempts
mod Bank
mod Prices
