-- ===== src/Examples.antt =====
-- Runs of the modelled code at concrete inputs.
pub mod Normalizing
pub mod Ordering
pub mod Variables
pub mod Verdicts
pub mod Searching
pub mod Observing
pub mod Narrowing
pub mod Windowing
pub mod Calling
pub mod Counting
pub mod Executing
