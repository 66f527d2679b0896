-- ===== src/Service/Failures.antt =====
-- `fail_job`, the record of a job that failed for good, and leases as a worker holds them
-- (service.py).
use aisys_adm.Prelude.{
  ℕ, zero, suc, String, Bool, not, ◌&&◌, Option, none, some, [], ◌∷◌, ltb, clip, text_or,
  if◌then◌else◌,
}
use Prim.Native.String.{◌++◌ as append}
use aisys_adm.Models.Enums.{Severity}
use aisys_adm.Models.Words.{JobStatus, FailureCategory}
use aisys_adm.Models.Values.{Datetime, Json, is_some}
use aisys_adm.Models.Jobs.{DurableJob}
use aisys_adm.Repository.Jobs.{save_job, heartbeat_job}
use aisys_adm.Service.World.{
  Environment, Raised, Result, Call, Action, settle, pure, or_raise, ◌>>=◌, ◌>>◌, raise_if,
  seconds_after,
}
use aisys_adm.Service.Records.{call, now, redact, audit, create_alert, on_jobs, find_job, job_title}

abbrev pub json_text? : Option String → Json
json_text? none = Json.null
json_text? (some s) = Json.text s

module _ (env : Environment) where
  unfoldable pub record_terminal_job_failure : DurableJob → Option String → Action (Unit {0})
  unfolding create_alert audit
  record_terminal_job_failure job host_id = do
    create_alert env Severity.critical (append (job_title job.job_type) " job failed")
        (text_or job.error "Job failed") host_id (some job.id)
    audit env "system" "job.failed" "job" (some job.id) (
        ("error", json_text? job.error)
        ∷ ("attempts", Json.num job.attempts)
        ∷ ("max_attempts", Json.num job.max_attempts)
        ∷ [])

  -- will_retry = retryable and job.attempts < job.max_attempts
  abbrev pub will_retry : DurableJob → Bool → Bool
  will_retry job retryable = retryable && ltb job.attempts job.max_attempts

  -- The job as `fail_job` saves it.
  unfoldable pub failed_job : DurableJob → String → Bool → FailureCategory → Datetime → DurableJob
  failed_job job safe_error retryable category current =
      let again = will_retry job retryable in
      let noted = record job {
        last_failure = some (record {
          failed_at = current;
          attempt = job.attempts;
          category = category;
          message = clip 2000 safe_error;
          retryable = again;
        });
        updated_at = current;
        lease_owner = none;
        lease_expires_at = none;
      } in
      if again
      then record noted {
        status = JobStatus.queued;
        error = none;
        current_phase = some "retry_scheduled";
        completed_at = none;
      }
      else record noted {
        status = JobStatus.failed;
        error = some (clip 2000 safe_error);
        current_phase = some "failed";
        completed_at = some current;
      }

  unfoldable pub announce_failure : DurableJob → String → Bool → String → Action (Unit {0})
  unfolding record_terminal_job_failure audit
  announce_failure job message retrying host_id =
      if retrying
      then audit env "system" "job.retry_scheduled" "job" (some job.id) (
          ("attempt", Json.num job.attempts)
          ∷ ("max_attempts", Json.num job.max_attempts)
          ∷ ("error", Json.text message)
          ∷ [])
      else record_terminal_job_failure job (some host_id)

  unfoldable pub fail_job :
      DurableJob → String → String → Option String → Bool → FailureCategory → Action DurableJob
  unfolding failed_job announce_failure redact
  fail_job job error host_id lease_owner retryable category = do
    current ← now env
    safe_error ← redact env error (some host_id)
    let failed = failed_job job safe_error retryable category current
    saved ← on_jobs (λ jobs. save_job jobs failed lease_owner)
    if not (is_some saved) then find_job job.id else do
      announce_failure failed (clip 2000 safe_error) (will_retry job retryable) host_id
      pure failed

  unfoldable pub assert_job_lease : String → String → Action (Unit {0})
  assert_job_lease job_id lease_owner = do
    heartbeat_at ← now env
    job ← on_jobs (λ jobs.
        heartbeat_job jobs job_id lease_owner heartbeat_at
          (seconds_after heartbeat_at env.job_lease_seconds))
    raise_if (not (is_some job)) Raised.job_lease_lost

  -- `_save_claimed_job`, with the job as it is after the save.
  unfoldable pub save_claimed_job : DurableJob → String → Action DurableJob
  save_claimed_job job lease_owner = do
    saved ← on_jobs (λ jobs. save_job jobs job (some lease_owner))
    or_raise saved Raised.job_lease_lost

  -- The heartbeats that come while a call runs. One that finds the lease lost cancels the call.
  unfoldable pub beats : ℕ → String → String → Action (Unit {0})
  unfolding assert_job_lease
  beats zero job_id lease_owner = pure tt
  beats (suc n) job_id lease_owner =
      assert_job_lease job_id lease_owner >> beats n job_id lease_owner

  -- The answer of a call of the outside world that ran under the heartbeat of the job.
  unfoldable pub await : {A : Type 0} → Call → (ℕ → Result Raised A) → String → String → Action A
  unfolding beats
  await asked answer job_id lease_owner = do
    tick ← call asked
    beats (env.heartbeats tick) job_id lease_owner
    settle (answer tick)
