-- ===== src/Redirector.antt =====
-- packages/redirector-core/src/index.ts: what the redirector takes over from the query of a link,
-- and where it sends a request on.
pub mod Parameters
pub mod Referrer
pub mod Resolve
pub mod Client
mod Tests
