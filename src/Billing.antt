-- ===== src/Billing.antt =====
-- The commercial side (billing): plans and subscriptions, who has paid for what, and payments.
pub mod Models
pub mod Access
pub mod Orders
pub mod Activation
pub mod Products
pub mod Refunds
pub mod Payments
pub mod Pricing
