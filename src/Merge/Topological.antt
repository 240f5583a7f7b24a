-- ===== src/Merge/Topological.antt =====
-- The topological merge: its invariant, that it ends, and the order of its result.
pub mod Graph
pub mod Rounds
pub mod Result
pub mod Complete
