-- ===== src/Terms.antt =====
-- src/parseval/terms: the term language.
pub mod Binding
