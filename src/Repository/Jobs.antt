-- ===== src/Repository/Jobs.antt =====
-- `save_job`, `claim_job`, `heartbeat_job` and `cancel_job` of `InMemoryRepository` (repository.py).
-- Each runs under the repository's lock, so it is one step on the dictionary of jobs; the copies
-- that it makes are the values of the model.
use aisys_adm.Prelude.{
  ◌+◌, String, Bool, not, ◌&&◌, ◌||◌, Option, none, some, List, leb, ◌is◌, ◌is_in◌, same_text,
  if◌then◌else◌,
}
use aisys_adm.Models.Words.{JobStatus, job_status_enum}
use aisys_adm.Models.Values.{Datetime, Dict, get, put}
use aisys_adm.Models.Jobs.{DurableJob}
use aisys_adm.Repository.Leases.{
  later_datetime, lease_is_expired, lease_expiration_failure, terminalize_exhausted_job,
}

abbrev pub Jobs : Type 0
Jobs = Dict DurableJob

-- self.jobs[job.id] = job
abbrev pub store : Jobs → DurableJob → Jobs
store jobs job = put jobs job.id job

-- The job is running, `lease_owner` holds its lease, and the lease is good at `now`.
unfoldable pub holds_lease : DurableJob → String → Datetime → Bool
holds_lease current lease_owner now = not (
    not (same_text current.lease_owner (some lease_owner))
    || not (current.status is JobStatus.running)
    || lease_is_expired current.lease_expires_at now)

-- A job that is saved as running keeps the later of the two heartbeats and of the two leases.
unfoldable pub merge_lease : DurableJob → DurableJob → DurableJob
merge_lease job current =
    if job.status is JobStatus.running
    then record job {
      heartbeat_at = later_datetime job.heartbeat_at current.heartbeat_at;
      lease_expires_at = later_datetime job.lease_expires_at current.lease_expires_at;
    }
    else job

-- `save_job` under a lease, once the stored job has been looked up.
unfoldable pub save_leased :
    Jobs → DurableJob → String → Option DurableJob → Option DurableJob × Jobs
save_leased jobs job owner none = (none, jobs)
save_leased jobs job owner (some current) =
    let merged = merge_lease job current in
    if not (holds_lease current owner job.updated_at)
    then (none, jobs)
    else (some merged, store jobs merged)

unfoldable pub save_job : Jobs → DurableJob → Option String → Option DurableJob × Jobs
unfolding save_leased
save_job jobs job none = (some job, store jobs job)
save_job jobs job (some lease_owner) = save_leased jobs job lease_owner (get jobs job.id)

-- expired = job.status == "running" and lease_is_expired(job.lease_expires_at, started_at)
unfoldable pub is_stale : DurableJob → Datetime → Bool
is_stale job now = job.status is JobStatus.running && lease_is_expired job.lease_expires_at now

abbrev pub or_else {ℓ} : {A : Type ℓ} → Option A → A → A
or_else none a = a
or_else (some b) a = b

-- The job as a worker that claims it has it.
unfoldable pub claimed : DurableJob → String → Datetime → Datetime → DurableJob
claimed job lease_owner started_at lease_expires_at = record job {
  last_failure =
      if is_stale job started_at
      then some (lease_expiration_failure job started_at)
      else job.last_failure;
  status = JobStatus.running;
  started_at = some (or_else job.started_at started_at);
  attempts = job.attempts + 1;
  lease_owner = some lease_owner;
  lease_expires_at = some lease_expires_at;
  heartbeat_at = some started_at;
  completed_at = none;
  error = none;
  updated_at = started_at;
}

-- `claim_job`, once the stored job has been looked up.
unfoldable pub claim_stored :
    Jobs → Option DurableJob → String → Datetime → Datetime → Option DurableJob × Jobs
claim_stored jobs none lease_owner started_at lease_expires_at = (none, jobs)
claim_stored jobs (some job) lease_owner started_at lease_expires_at =
    let taken = claimed job lease_owner started_at lease_expires_at in
    if not (job.status is JobStatus.queued) && not (is_stale job started_at)
    then (none, jobs)
    else if leb job.max_attempts job.attempts
    then (none, store jobs (terminalize_exhausted_job job started_at))
    else (some taken, store jobs taken)

unfoldable pub claim_job : Jobs → String → String → Datetime → Datetime → Option DurableJob × Jobs
unfolding claim_stored
claim_job jobs job_id lease_owner started_at lease_expires_at =
    claim_stored jobs (get jobs job_id) lease_owner started_at lease_expires_at

unfoldable pub heartbeat_stored :
    Jobs → Option DurableJob → String → Datetime → Datetime → Option DurableJob × Jobs
heartbeat_stored jobs none lease_owner heartbeat_at lease_expires_at = (none, jobs)
heartbeat_stored jobs (some stored) lease_owner heartbeat_at lease_expires_at =
    let job = record stored {
      heartbeat_at = some heartbeat_at;
      lease_expires_at = some lease_expires_at;
      updated_at = heartbeat_at;
    } in
    if not (holds_lease stored lease_owner heartbeat_at)
    then (none, jobs)
    else (some job, store jobs job)

unfoldable pub heartbeat_job :
    Jobs → String → String → Datetime → Datetime → Option DurableJob × Jobs
unfolding heartbeat_stored
heartbeat_job jobs job_id lease_owner heartbeat_at lease_expires_at =
    heartbeat_stored jobs (get jobs job_id) lease_owner heartbeat_at lease_expires_at

unfoldable pub cancel_stored :
    Jobs → Option DurableJob → Datetime → List JobStatus → String → Option DurableJob × Jobs
cancel_stored jobs none canceled_at allowed_statuses phase = (none, jobs)
cancel_stored jobs (some stored) canceled_at allowed_statuses phase =
    let job = record stored {
      status = JobStatus.canceled;
      current_phase = some phase;
      completed_at = some canceled_at;
      updated_at = canceled_at;
      lease_owner = none;
      lease_expires_at = none;
    } in
    if stored.status is_in allowed_statuses then (some job, store jobs job) else (some stored, jobs)

unfoldable pub cancel_job :
    Jobs → String → Datetime → List JobStatus → String → Option DurableJob × Jobs
unfolding cancel_stored
cancel_job jobs job_id canceled_at allowed_statuses phase =
    cancel_stored jobs (get jobs job_id) canceled_at allowed_statuses phase
