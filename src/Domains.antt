-- ===== src/Domains.antt =====
-- Numeric domains and their comparison: `NumericDomain` of src/chipchain/firmware/capability.py and
-- `compare_numeric_domains` of src/chipchain/cross_layer/capability_compatibility.py.
mod Data
pub mod Contained
mod Tests
unfoldable pub use Data.*
