-- ===== src/Attribution/Reconcile.antt =====
-- `reconciliationResults` of packages/attribution-core/src/evaluator.ts: what an external snapshot has
-- in common with the evaluated attempts.
pub mod Keys
pub mod Reasons
pub mod Imported
pub mod Laws
