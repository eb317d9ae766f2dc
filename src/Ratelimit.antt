-- ===== src/Ratelimit.antt =====
-- app/ratelimit.py: the circuit breaker, the token buckets and the fetch gate.
pub mod Breaker
pub mod Bucket
pub mod Gate
mod Tests
