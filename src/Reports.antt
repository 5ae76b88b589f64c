-- ===== src/Reports.antt =====
-- The queries of reports in apps/api/src/report-query.ts: how a request's parameters are read, and the
-- SQL that is made of them.
pub mod Query
pub mod Filters
pub mod Series
pub mod Cursor
pub mod Parse
pub mod Sql
mod Tests
