-- ===== src/Gate/Eligibility.antt =====
-- What an allowed execution rests on, as conditions on the remediation, the host and the job, and
-- that `execution_eligibility` allows exactly the executions that meet them (trusted_change.py).
pub mod Conditions
pub mod Allowed
