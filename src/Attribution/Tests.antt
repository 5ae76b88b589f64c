-- ===== src/Attribution/Tests.antt =====
-- Runs of the attribution on sample attempts, and its theorems at them.
pub mod Samples
mod Decisions
mod Installs
mod Engagements
mod Evaluations
mod Ledgers
mod Frauds
mod Reconciliations
mod Definitions
mod Cohorts
mod Runs
