-- ===== src/Gate/Projected.antt =====
-- What the projection of a campaign says of its plans (`project_campaign` of trusted_change.py).
pub mod Hosts
pub mod Settled
pub mod Status
