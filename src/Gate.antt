-- ===== src/Gate.antt =====
-- The trusted policy, trusted_change.py (apps/api/sysadmin_api/trusted_change.py): pure decisions
-- on plans, approvals, executions and campaigns.
pub mod Decision
pub mod Plan
pub mod Approval
pub mod Transitions
pub mod Execution
pub mod Drift
pub mod Timing
pub mod Outcome
pub mod Campaign
pub mod Rollup
pub mod Projection
pub mod Eligibility
pub mod Reconciled
pub mod Consent
pub mod Flow
pub mod Batch
pub mod Projected
pub mod Followed
pub mod Windows
