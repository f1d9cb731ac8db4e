-- ===== src/Capability.antt =====
-- Firmware capabilities and their validators: src/chipchain/firmware/capability.py.
mod Data
mod Check
mod References
mod Authority
pub mod Kinds
pub mod Full
pub mod Example
mod Tests
unfoldable pub use Data.*
unfoldable pub use Check.*
unfoldable pub use References.*
unfoldable pub use Authority.*
