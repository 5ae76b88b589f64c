-- ===== src/Attribution/Metrics.antt =====
-- The definitions of metrics of packages/attribution-core/src/evaluator.ts, and the records of cost.
pub mod Definitions
pub mod Series
pub mod Named
pub mod Cohorts
pub mod Selection
pub mod Values
pub mod Counts
pub mod Runs
