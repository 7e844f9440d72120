-- ===== src/Smt.antt =====
-- src/parseval/smt: the constraint solver for simple requirements.
pub mod Formula
pub mod Valuation
pub mod Normalizer
pub mod Links
pub mod Search
