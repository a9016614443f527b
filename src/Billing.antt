-- ===== src/Billing.antt =====
-- internal/billing and internal/store/billing.go: plans, entitlements, and the billing columns of a
-- project.
pub mod Plans
pub mod Rows
pub mod Laws
pub mod RequestId
