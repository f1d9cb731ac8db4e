-- ===== src/Trace.antt =====
-- `parse_apparatus_trace` of src/chipchain/firmware/mmio_grounding.py: the checks that a raw bus trace
-- passes before its transactions count as observations. The lines are taken after JSON decoding.
mod Data
pub mod Step
pub mod Link
pub mod Epoch
pub mod Samples
pub mod Accepted
pub mod Example
mod Tests
unfoldable pub use Data.*
