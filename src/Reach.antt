-- ===== src/Reach.antt =====
-- Static reachability with bounded witnesses: src/chipchain/tools/firmware/static_reachability.py.
mod Search
mod Walk
mod Catalog
mod Build
mod Validate
pub mod Ends
pub mod Sound
mod Layers
mod Frame
mod Rounds
pub mod Shortest
pub mod Accepted
pub mod Sites
mod Lookup
mod Steps
mod Pairs
pub mod Functions
mod Owned
mod Outcomes
pub mod Built
mod Tests
unfoldable pub use Search.*
pub use Walk.*
unfoldable pub use Catalog.*
unfoldable pub use Build.*
unfoldable pub use Validate.*
