-- ===== src/Scenarios.antt =====
-- The theorems at concrete data: each is applied to a host, a plan, a campaign or a job.
pub mod Fixtures
pub mod Plans
pub mod Campaigns
pub mod Leases
pub mod Logins
pub mod Workflows
