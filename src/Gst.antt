-- ===== src/Gst.antt =====
-- internal/modules/gstindia and the contract of internal/modules/taxation/domain: India's GST as a
-- tax engine. `Types` has the data, `Rates` the reference tables, `Line` the tax on one line and
-- `Engine` the tax on a document.
pub mod Types
pub mod Rates
pub mod Line
pub mod Engine
mod Tests
