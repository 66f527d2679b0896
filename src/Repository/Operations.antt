-- ===== src/Repository/Operations.antt =====
-- What workers and the scheduler do to the stored jobs, as operations on the store and, for one
-- job, as steps with no store (repository.py).
use aisys_adm.Prelude.{String, not, ◌&&◌, leb, none, some, ◌≡◌, List, ◌is◌, ◌is_in◌, if◌then◌else◌}
use aisys_adm.Models.Words.{JobStatus, job_status_enum}
use aisys_adm.Models.Values.{Datetime, get}
use aisys_adm.Models.Jobs.{DurableJob}
use aisys_adm.Repository.Leases.{terminalize_exhausted_job}
use aisys_adm.Repository.Jobs.{
  Jobs, is_stale, holds_lease, claimed, claim_job, heartbeat_job, cancel_job,
}

-- What the workers and the scheduler do to the stored jobs, each with its arguments.
pub data Operation : Type 0 where
  claim : String → String → Datetime → Datetime → Operation
  heartbeat : String → String → Datetime → Datetime → Operation
  cancel : String → Datetime → List JobStatus → String → Operation

abbrev pub apply : Operation → Jobs → Jobs
apply (Operation.claim id owner now lease) jobs = (claim_job jobs id owner now lease).1
apply (Operation.heartbeat id owner now lease) jobs = (heartbeat_job jobs id owner now lease).1
apply (Operation.cancel id now allowed phase) jobs = (cancel_job jobs id now allowed phase).1

-- The same operations as steps of one job, with no store.
abbrev pub addressed : Operation → String
addressed (Operation.claim id owner now lease) = id
addressed (Operation.heartbeat id owner now lease) = id
addressed (Operation.cancel id now allowed phase) = id

unfoldable pub job_step : Operation → DurableJob → DurableJob
job_step (Operation.claim id owner now lease) job =
    if not (job.status is JobStatus.queued) && not (is_stale job now)
    then job
    else if leb job.max_attempts job.attempts
    then terminalize_exhausted_job job now
    else claimed job owner now lease
job_step (Operation.heartbeat id owner now lease) job =
    if holds_lease job owner now
    then record job { heartbeat_at = some now; lease_expires_at = some lease; updated_at = now }
    else job
job_step (Operation.cancel id now allowed phase) job =
    if job.status is_in allowed
    then record job {
      status = JobStatus.canceled;
      current_phase = some phase;
      completed_at = some now;
      updated_at = now;
      lease_owner = none;
      lease_expires_at = none;
    }
    else job

-- Every job is stored under its own identifier.
abbrev pub IsKeyed : Jobs → Type 0
IsKeyed jobs = (key : String) (job : DurableJob) → get jobs key ≡ some job → job.id ≡ key
