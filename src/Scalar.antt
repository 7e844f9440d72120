-- ===== src/Scalar.antt =====
-- src/parseval/symbolic and the scalar part of src/parseval/terms: typed scalar and predicate terms
-- and their concrete execution.
pub mod Term
pub mod Outcome
pub mod Like
pub mod Evaluate
pub mod Comparisons
pub mod Order
pub mod Sorts
pub mod Operations
