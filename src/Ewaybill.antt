-- ===== src/Ewaybill.antt =====
-- internal/modules/ewaybill: e-Way Bills, generated by a provider or uploaded to a portal by hand.
pub mod Types
pub mod Eligibility
pub mod Records
pub mod Generate
pub mod Portal
pub mod Checks
pub mod Snapshot
pub mod Frozen
pub mod Issued
mod Tests
