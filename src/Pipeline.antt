-- ===== src/Pipeline.antt =====
-- app/pipeline: what is done for one domain, from its pages to its result.
pub mod Candidate
pub mod Judge
pub mod Status
pub mod Fetch
pub mod Run
pub mod Rank
pub mod Discovery
pub mod Sitemaps
pub mod Scoring
pub mod Parked
pub mod DnsCheck
mod Tests
