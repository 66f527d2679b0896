-- ===== src/Models.antt =====
-- The data model, models.py (apps/api/sysadmin_api/models.py): each pydantic class is a record with
-- the source's fields, each enumeration a data type.
pub mod Enums
pub mod Words
pub mod Values
pub mod Hosts
pub mod Snapshots
pub mod Remediations
pub mod Jobs
pub mod Campaigns
pub mod Scans
pub mod Collected
pub mod Records
