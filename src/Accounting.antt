-- ===== src/Accounting.antt =====
-- internal/modules/accounting: journals, receipts and payments, ledgers, periods.
pub mod CashTypes
pub mod Types
pub mod Books
pub mod Posting
pub mod Rows
pub mod Containing
pub mod Cash
pub mod Periods
pub mod Ledger
pub mod Ageing
pub mod Kept
pub mod Once
pub mod Parties
pub mod Operations
pub mod Locks
pub mod Chart
mod Tests
