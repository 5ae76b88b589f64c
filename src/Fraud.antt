-- ===== src/Fraud.antt =====
-- packages/fraud-rules/src/index.ts: the bundles of rules and the rules over one install.
pub mod Value
pub mod Bundle
pub mod Assert
pub mod Install
mod Tests
