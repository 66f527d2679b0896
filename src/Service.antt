-- ===== src/Service.antt =====
-- The workflows of `SysadminService` (apps/api/sysadmin_api/service.py).
pub mod World
pub mod Records
pub mod Plans
pub mod Sync
pub mod Failures
pub mod Approvals
pub mod Snapshots
pub mod Protection
pub mod Execution
pub mod Work
pub mod Recovery
pub mod Releases
pub mod Deletion
pub mod Scans
pub mod Hosts
pub mod Campaigns
pub mod Rollout
pub mod Kept
pub mod Requests
pub mod Blocked
pub mod Prepared
pub mod Selected
pub mod Added
