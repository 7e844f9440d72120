-- ===== src/Uexpr.antt =====
-- src/parseval/uexpr: analyses and rewrites of U-expressions.
pub mod Order
