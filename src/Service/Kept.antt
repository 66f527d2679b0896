-- ===== src/Service/Kept.antt =====
-- Invariants of the service: what every operation of `SysadminService` (service.py) keeps.
pub mod Rules
pub mod Records
pub mod Jobs
pub mod Plans
pub mod Changes
pub mod Rollouts
pub mod Hosts
pub mod Leads
pub mod Held
pub mod Guarded
pub mod Executions
pub mod Changed
pub mod Workers
pub mod Scheduler
pub mod Served
