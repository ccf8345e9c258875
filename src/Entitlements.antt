-- ===== src/Entitlements.antt =====
-- entitlements/services.py: one decision, with its reason, for each capability.
pub mod Decision
pub mod Commercial
pub mod Start
pub mod Attempts
pub mod Purchase
pub mod Reasons
