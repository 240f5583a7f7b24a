-- ===== src/Tests.antt =====
-- The development's theorems at concrete inputs, and runs of its definitions.
pub mod Data
pub mod Time
pub mod Usage
pub mod Units
pub mod Billing
pub mod Export
pub mod Replay
pub mod Import
pub mod Merge
pub mod Workers
pub mod Pricing
pub mod Deletion
pub mod Recovery
