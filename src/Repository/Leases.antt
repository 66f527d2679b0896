-- ===== src/Repository/Leases.antt =====
-- Times, leases and failures of jobs: the functions above `Repository` in repository.py.
use aisys_adm.Prelude.{
  String, Bool, true, false, not, Option, none, some, leb, ltb, clip, if◌then◌else◌,
}
use aisys_adm.Models.Words.{JobStatus, FailureCategory}
use aisys_adm.Models.Values.{Datetime}
use aisys_adm.Models.Jobs.{DurableJob, JobFailure}

-- A naive time is read as one of UTC.
unfoldable pub normalized_datetime : Datetime → Datetime
normalized_datetime value = if not value.tz_aware then record value { tz_aware = true } else value

-- first <= second, between normalized times
unfoldable pub not_after : Datetime → Datetime → Bool
unfolding normalized_datetime
not_after first second =
    leb (normalized_datetime first).instant (normalized_datetime second).instant

unfoldable pub later_datetime : Option Datetime → Option Datetime → Option Datetime
later_datetime none second = second
later_datetime (some first) none = some first
later_datetime (some first) (some second) = some (if not_after second first then first else second)

unfoldable pub lease_is_expired : Option Datetime → Datetime → Bool
lease_is_expired none current = true
lease_is_expired (some lease_expires_at) current = not_after lease_expires_at current

unfoldable pub lease_expiration_failure : DurableJob → Datetime → JobFailure
lease_expiration_failure job failed_at = record {
  failed_at = failed_at;
  attempt = job.attempts;
  category = FailureCategory.worker_lease_expired;
  message = "Worker lease expired before the job completed";
  retryable = ltb job.attempts job.max_attempts;
}

abbrev pub failure_message : Option JobFailure → String
failure_message none = "Job retry attempts were exhausted"
failure_message (some failure) = failure.message

abbrev pub no_retry : Option JobFailure → Option JobFailure
no_retry none = none
no_retry (some failure) = some (record failure { retryable = false })

unfoldable pub terminalize_exhausted_job : DurableJob → Datetime → DurableJob
terminalize_exhausted_job job failed_at = record job {
  status = JobStatus.failed;
  error = some (clip 2000 (failure_message job.last_failure));
  current_phase = some "failed";
  completed_at = some failed_at;
  lease_owner = none;
  lease_expires_at = none;
  updated_at = failed_at;
  last_failure = no_retry job.last_failure;
}
