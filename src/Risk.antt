-- ===== src/Risk.antt =====
-- packages/risk: Do Not Fund Governance.
pub mod Listings
pub mod Gate
