-- ===== src/Lib.antt =====
-- Verification of AISysAdm: the approval and execution of patch plans on Linux hosts, campaigns of
-- such plans, and the durable jobs that carry them out.
--
-- The program is the Python package apps/api/sysadmin_api. Its service (service.py) collects a
-- snapshot of a host, lets agents propose a remediation plan, asks TrustedChangeGate
-- (trusted_change.py) for every decision on a plan, and stores plans, campaigns and jobs in a
-- repository (repository.py), from which workers claim jobs under leases. This development models
-- the gate, the operations of the repository on jobs, the workflows of the service, the sessions
-- and the login limiter (security.py), and the part of the data model (models.py) that these use.
-- The gate and the jobs meet in two places: a job is bound to the version and the hash of an
-- approved plan (execution_eligibility), and a job that is recovered from an expired lease keeps
-- the phase that its worker had reached, from which the gate decides whether it may run again
-- (stale_recovery).
--
-- Prelude: names of the libraries, Boolean tests and list functions of Python.
-- Models (models.py): enumerations (Enums), texts of fixed vocabularies (Words), times and
-- dictionaries (Values), and the records of hosts, snapshots, remediations, jobs and campaigns,
-- field by field.
-- Gate (trusted_change.py): Decision (codes, GateDecision), Plan (_plan_payload, plan_hash),
-- Approval (_catalog_decision, _evidence_decision, _approval_decision), Transitions
-- (reconcile_plan, validate_approval_request, approve_plan, approve_reboot), Execution
-- (snapshot_requirement, execution_eligibility, duplicate_execution), Timing (timing and the
-- maintenance window), Outcome (execution_outcome, the failure tables, stale_recovery), Campaign
-- (campaign_batch, start_campaign_batch), Projection and Rollup (project_campaign). The proofs
-- stand in Eligibility (when a plan may run), Consent (what approvals need), Reconciled (changed
-- plans), Flow (from approvals to execution), Batch (which hosts start), Projected (campaign
-- projections), Followed (retries and recoveries) and Windows (when a plan starts).
-- Repository (repository.py): Leases (the functions on times and leases), Jobs (save_job,
-- claim_job, heartbeat_job, cancel_job), Recovery (recover_expired_jobs). Expired is about what a
-- recovery leaves. Store and Updates hold the laws of the dictionary; Operations, Refined and
-- Attempts treat the operations as steps of single jobs and count claims; Exclusion is about two
-- workers and one job.
-- Security (security.py): Limiter (LoginRateLimiter._allow_memory and the memory part of reset),
-- Sessions (authenticate, verify_csrf, logout of AuthService over the sessions and users of
-- repository.py) and Login (login); Attempted, Revoked and LoggedIn hold their theorems.
-- Service (service.py): World (the store, the calls of the outside world, exceptions, and methods
-- as actions that read and write a world and may raise), Records (lookups, saves, redact, audit,
-- create_alert), Plans (_ensure_current_remediation_plan, _trusted_execution_decision), Sync
-- (_sync_campaign and what follows a plan), Failures (fail_job and leases), Approvals (approvals,
-- rejection, prepare_remediation_job), Snapshots and Protection (rollback snapshots before and
-- after a change), Execution (_process_claimed_remediation), Work (process_remediation), Deletion
-- (process_snapshot_delete), Recovery and Releases (what the scheduler calls), Scans
-- (create_scan_job and proposals of campaigns), Hosts (hosts, schedules, acknowledge_alert,
-- purge_expired_logs), Campaigns and Rollout (the campaign methods), Requests (the public methods
-- as one data type). Kept is about what every request keeps: Rules has the writes of the service,
-- the interface of an invariant that withstands them and a rule for each way to put actions
-- together; Leads has such rules for what an action makes of the store, and Held and Guarded use
-- them for what a change on a host rests on; Records, Jobs, Plans, Changes, Rollouts, Hosts,
-- Executions, Changed, Workers and Scheduler go through the methods; Served fills the interface.
-- Blocked, Prepared, Selected and Added hold further theorems.
-- Scenarios: every theorem at concrete data.
--
-- A world of the service holds the collections that the repository keeps, as dictionaries. What is
-- read is a copy and a transaction that raises puts the store back, both as in SqlRepository (the
-- transaction of InMemoryRepository only locks); an inner transaction is part of the outer one.
-- Every identifier and every time is drawn from the environment at the count of draws so far. A
-- call of the collector, the executor or the snapshot provider is recorded with the store as it is
-- then, answers with a value of the environment or raises an exception of it, and while it runs
-- the heartbeat of the job comes as often as the environment says; a heartbeat that finds the
-- lease lost ends the work. The steps of a worker change one job object: a step that raises
-- carries the job as it was, for the handler of the exception.
--
-- A method that changes a copy of its argument is a function that returns the changed record. The
-- in-memory repository runs each operation under its lock, so an operation is one step from a
-- dictionary of jobs to the next, with the job returned or none. Loops are structural recursion on
-- lists; no fuel is used. Times are microseconds since the epoch with a flag for their time zone;
-- integers of Python are natural numbers, but for the return code of a log event, which may be
-- negative.
--
-- Parameters stand for code outside the repository: hash for SHA-256 over the JSON text of a
-- plan's content, token_hash for SHA-256 of a session token, verify for the check of a password by
-- Argon2, lower for str.lower, show for str on values that are not texts, Calendar for the time
-- zone data base, and fields of Environment for datetime formats, cron expressions, pydantic's
-- equality, the clock and the identifiers. The other fields of Environment stand for modules of
-- the repository that are not modelled: redaction and the sanitizer of audit details, the
-- collector, the executor and the snapshot provider. No law of them is assumed; where two contents
-- have to hash differently, a theorem says so among its hypotheses.
--
-- Not modelled: of service.py process_scan with the agents' results, test_connection and the
-- methods that only list; the queries and the SQL rows of repository.py other than its
-- transaction, the Redis path of the limiter and ensure_admin of security.py, the modules around
-- the service (agents, collector, executor, snapshot providers, HTTP routes), and the web client.
-- Requests are served one after another: what two workers may do at once is modelled on the job
-- store alone, in Repository.
pub mod Prelude
pub mod Models
pub mod Gate
pub mod Repository
pub mod Security
pub mod Service
pub mod Scenarios
