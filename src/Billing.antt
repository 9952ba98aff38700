-- ===== src/Billing.antt =====
-- packages/billing: the offer ladder's money.
pub mod Money
pub mod Tables
pub mod Credit
pub mod Refunds
