-- ===== src/Binding.antt =====
-- The binding of static firmware facts to hardware resources: src/chipchain/hardware/resources.py
-- and src/chipchain/cross_layer/resource_binding.py.
mod Data
mod Select
mod Sets
pub mod Supported
pub mod Manual
pub mod Covered
pub mod Example
mod Tests
unfoldable pub use Data.*
unfoldable pub use Select.*
unfoldable pub use Sets.*
