-- ===== src/Attribution.antt =====
-- The attribution of packages/attribution-core/src/evaluator.ts, by its steps.
pub mod Types
pub mod Candidates
pub mod Errors
pub mod Consent
pub mod Decide
pub mod Results
pub mod Verdicts
pub mod Install
pub mod Lifecycle
pub mod Engagement
pub mod Anchors
pub mod Order
pub mod Inputs
pub mod Outputs
pub mod FraudDecisions
pub mod Metrics
pub mod Reconcile
pub mod Referrer
pub mod Evaluate
mod Tests
