-- ===== src/Gate/Batch.antt =====
-- The next batch of a campaign holds approved, unchanged plans only and keeps to its limits
-- (`campaign_batch` of trusted_change.py).
pub mod Selected
pub mod Limits
