-- ===== src/Smt/Normalizer.antt =====
-- src/parseval/smt/csp.py, `Normalizer`: formulas for the TRUE, FALSE and UNKNOWN outcomes of
-- predicates. The memo tables only save work and are left out; the counter of normalized predicates
-- bounds the depth here.
pub mod Attempt
pub mod Weights
pub mod Lift
pub mod Truth
pub mod Exact
