-- ===== src/Smt/Normalizer/Exact.antt =====
-- `Normalizer.truth` of src/parseval/smt/csp.py is exact.
pub mod Tables
pub mod Distinct
pub mod Junctions
pub mod Nodes
pub mod Sides
pub mod Whole
