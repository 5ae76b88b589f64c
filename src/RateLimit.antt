-- ===== src/RateLimit.antt =====
-- apps/api/src/rate-limit.ts: the token bucket and the bounded, expiring limiter with a bucket for
-- each key. Times are whole milliseconds, the rate and the burst whole tokens; a token is counted
-- in thousandths, so that what a millisecond adds is exact.
pub mod Bucket
pub mod Keyed
mod Tests
