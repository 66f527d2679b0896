-- ===== src/Repository.antt =====
-- The durable jobs of the in-memory repository (apps/api/sysadmin_api/repository.py).
pub mod Leases
pub mod Jobs
pub mod Recovery
pub mod Expired
pub mod Store
pub mod Exclusion
pub mod Operations
pub mod Updates
pub mod Refined
pub mod Attempts
