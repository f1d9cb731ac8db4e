-- ===== src/Matching.antt =====
-- The static matching of capabilities against a hardware contract: src/chipchain/cross_layer/matching.py,
-- with the atoms of src/chipchain/cross_layer/trigger.py.
mod Data
mod Judge
mod Match
pub mod Sound
pub mod Candidates
pub mod Total
mod Tests
unfoldable pub use Data.*
unfoldable pub use Judge.*
unfoldable pub use Match.*
