-- ===== src/Compat.antt =====
-- The comparison of a firmware capability with the triggers of a hardware contract:
-- src/chipchain/cross_layer/capability_compatibility.py.
mod Data
mod Fields
mod Trigger
pub mod Met
pub mod Payload
pub mod Sound
pub mod Rows
mod Tests
unfoldable pub use Data.*
unfoldable pub use Fields.*
unfoldable pub use Trigger.*
