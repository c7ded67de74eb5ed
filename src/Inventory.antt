-- ===== src/Inventory.antt =====
-- Stock: internal/modules/inventory, and the unit conversions of internal/modules/catalogue.
pub mod Types
pub mod Stock
pub mod Movement
pub mod Operations
pub mod Ledger
pub mod Balance
pub mod Aside
pub mod Effect
pub mod Trail
pub mod Steps
pub mod Reach
pub mod Floor
mod Tests
