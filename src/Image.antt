-- ===== src/Image.antt =====
-- The declared mapping from runtime addresses to ELF addresses (src/chipchain/runtime/image_mapping.py).
mod Data
pub mod Unique
pub mod Translate
mod Tests
unfoldable pub use Data.*
