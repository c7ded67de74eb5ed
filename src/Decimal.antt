-- ===== src/Decimal.antt =====
-- The decimal library github.com/shopspring/decimal, which the code calls and this repository does
-- not hold: its operations as an interface, and the documented laws of exact decimal numbers.
-- Numbers are taken up to numerical equality (1.0 and 1.00 are one value).
pub mod Group
pub mod Fixed
mod Interface
unfoldable pub use Interface.*
