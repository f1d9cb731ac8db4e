-- ===== src/Verifier.antt =====
-- The controlled Type-II runtime verifier (src/chipchain/cross_layer/type2_verifier.py): the judgement of a
-- validated target run and an optional reference run against a hardware behavior contract.
pub mod Data
pub mod Judge
pub mod Access
pub mod State
pub mod Scope
pub mod Trigger
pub mod Deviation
pub mod Reference
pub mod Verify
pub mod PreState
mod Total
mod Built
mod Sound
mod Status
mod Executed
mod Raises
mod Example
mod Tests
