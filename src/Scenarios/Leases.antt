-- ===== src/Scenarios/Leases.antt =====
-- Two workers and one job: claims, an expired lease, a recovery and the end of the job.
use aisys_adm.Prelude.{
  ◌+◌, ◌*◌, if◌then◌else◌, ◌≤◌, ◌≡◌, ◌≢◌, ◌↔◌, ◌⊎◌, refl, inl, String, true, false, none, some,
  List, [], ◌∷◌, arith, eq_iff, ◌==◌,
}
use aisys_adm.Models.Words.{JobStatus, ExecutionTiming}
use aisys_adm.Models.Values.{get, is_some}
use aisys_adm.Models.Jobs.{DurableJob}
use aisys_adm.Models.Remediations.{Remediation, ExecutionResult}
use aisys_adm.Repository.Leases.{normalized_datetime, not_after, lease_is_expired}
use aisys_adm.Repository.Jobs.{Jobs, is_stale, claim_job, save_job, heartbeat_job}
use aisys_adm.Repository.Recovery.{recover_expired_jobs}
use aisys_adm.Repository.Expired.{
  HasDistinctKeys, HasOwnKeys, recover_found, recover_stale, recover_pointwise,
  recovery_leaves_no_stale_job,
}
use aisys_adm.Repository.Exclusion.{
  IsClaimable, claim_granted, claim_exclusive, stale_worker_fenced,
}
use aisys_adm.Repository.Operations.{Operation, apply, addressed, job_step, IsKeyed}
use aisys_adm.Repository.Updates.{changed}
use aisys_adm.Repository.Refined.{apply_refines}
use aisys_adm.Repository.Attempts.{successful_claims, claims_bounded, ended_job_stays}
use aisys_adm.Gate.Outcome.{execution_outcome}
use aisys_adm.Gate.Timing.{Calendar, timing}
use aisys_adm.Gate.Followed.{IsRetryable, outcome_exact, IsFinal}
use aisys_adm.Gate.Windows.{HasOpenWindow, timing_allowed}
use aisys_adm.Scenarios.Fixtures.{at, plan, job, jobs}

claim_granted_example :
    is_some (claim_job jobs "job-1" "worker-a" (at 10) (at 60)).0 ≡ true ↔ IsClaimable job (at 10)
claim_granted_example = claim_granted jobs "job-1" "worker-a" (at 10) (at 60) job refl

first_claim : is_some (claim_job jobs "job-1" "worker-a" (at 10) (at 60)).0 ≡ true
first_claim = claim_granted_example.1 (record { free = inl refl; attempts_left = ground arith })

runs_until_60 : lease_is_expired (some (at 60)) (at 30) ≡ false
unfolding lease_is_expired not_after normalized_datetime
runs_until_60 = refl

claim_exclusive_example :
    let after = (claim_job jobs "job-1" "worker-a" (at 10) (at 60)).1 in
    claim_job after "job-1" "worker-b" (at 30) (at 90) ≡ (none, after)
claim_exclusive_example =
    claim_exclusive jobs "job-1" "worker-a" (at 10) (at 60) job "worker-b" (at 30) (at 90) refl refl
      first_claim runs_until_60

b_is_not_a : ◌≢◌ {A = String} "worker-b" "worker-a"
b_is_not_a e = ground (arith, eq_iff "worker-b" "worker-a")

stale_worker_fenced_example :
    let after = (claim_job jobs "job-1" "worker-a" (at 10) (at 60)).1 in
    (save_job after job (some "worker-b") ≡ (none, after))
    × (heartbeat_job after "job-1" "worker-b" (at 30) (at 90) ≡ (none, after))
stale_worker_fenced_example =
    stale_worker_fenced jobs "job-1" "worker-a" (at 10) (at 60) job "worker-b" job (at 30) (at 90)
      refl refl first_claim b_is_not_a refl

jobs-IsKeyed : IsKeyed jobs
jobs-IsKeyed key j h = ground (arith, eq_iff "job-1" key)

abbrev first_operations : List Operation
first_operations =
    Operation.claim "job-1" "worker-a" (at 10) (at 60)
    ∷ Operation.heartbeat "job-1" "worker-a" (at 50) (at 100)
    ∷ Operation.claim "job-1" "worker-b" (at 200) (at 250)
    ∷ []

apply_refines_example :
    let op = Operation.claim "job-1" "worker-a" (at 10) (at 60) in
    get (apply op jobs) "job-1" ≡ changed (addressed op) (job_step op) "job-1" (get jobs "job-1")
apply_refines_example =
    apply_refines (Operation.claim "job-1" "worker-a" (at 10) (at 60)) jobs "job-1" jobs-IsKeyed

claims_bounded_example : 0 + successful_claims "job-1" first_operations jobs ≤ 3
claims_bounded_example =
    claims_bounded first_operations jobs "job-1" job jobs-IsKeyed refl (ground arith)

abbrev ended : DurableJob
ended = record job { status = JobStatus.completed; attempts = 1 }

abbrev ended_jobs : Jobs
ended_jobs = ("job-1", ended) ∷ []

ended_jobs-IsKeyed : IsKeyed ended_jobs
ended_jobs-IsKeyed key j h = ground (arith, eq_iff "job-1" key)

ended_job_stays_example :
    get
      (apply
        (Operation.cancel "job-1" (at 70) (JobStatus.queued ∷ JobStatus.scheduled ∷ []) "canceled")
        ended_jobs)
      "job-1"
    ≡ some ended
ended_job_stays_example =
    ended_job_stays
      (Operation.cancel "job-1" (at 70) (JobStatus.queued ∷ JobStatus.scheduled ∷ []) "canceled")
      ended_jobs "job-1" ended ended_jobs-IsKeyed refl refl refl

abbrev interrupted : DurableJob
interrupted = record job {
  status = JobStatus.running;
  attempts = 1;
  current_phase = some "ansible_execution";
  lease_owner = some "worker-a";
  lease_expires_at = some (at 60);
}

abbrev recovered_jobs : Jobs
recovered_jobs =
    ("job-1", interrupted)
    ∷ ("job-2", record interrupted { id = "job-2"; current_phase = some "state_drift_check" })
    ∷ []

abbrev unreachable : ExecutionResult
unreachable = record {
  success = false;
  summary = "connection timed out";
  changed = false;
  reboot_performed = false;
  phases = [];
  events = [];
  failure_actions_taken = [];
}

outcome_exact_example :
    let outcome = execution_outcome (λ s. s) unreachable none in
    (outcome.job_status ≡ JobStatus.completed ↔ unreachable.success ≡ true)
    × (outcome.job_status ≡ JobStatus.queued ↔ IsRetryable (λ s. s) unreachable none)
    × (outcome.job_status ≡ JobStatus.failed ↔ IsFinal (λ s. s) unreachable none)
    × (outcome.stop_remaining_hosts ≡ true ↔ IsFinal (λ s. s) unreachable none)
outcome_exact_example = outcome_exact (λ s. s) unreachable none

-- Days and dates by number, and the hour "22".
abbrev calendar : Calendar
calendar = record {
  local = λ zone t. some (2, 0);
  combine = λ zone date hour minute. some ((hour * 60 + minute) * 60 * 1000000);
  int = λ s. if s == "22" then some 22 else if s == "00" then some 0 else none;
}

abbrev windowed_plan : Remediation
windowed_plan = record plan {
  execution_timing = ExecutionTiming.maintenance_window;
  maintenance_window =
      some (record {
        timezone = "UTC";
        weekdays = 2 ∷ [];
        start_time = "22:00";
        duration_minutes = 60;
      });
}

timing_allowed_example :
    (elim (timing calendar windowed_plan (at 79300000000)) [
      | none ↦ false
      | some d ↦ d.decision.allowed
    ])
      ≡ true
    ↔ ((windowed_plan.execution_timing ≡ ExecutionTiming.immediate)
        ⊎ ((windowed_plan.execution_timing ≢ ExecutionTiming.immediate)
            × HasOpenWindow calendar windowed_plan (at 79300000000)))
timing_allowed_example = timing_allowed calendar windowed_plan (at 79300000000)

abbrev settled_jobs : Jobs
settled_jobs = ("job-0", record ended { id = "job-0" }) ∷ ("job-1", interrupted) ∷ []

settled_jobs-HasDistinctKeys : HasDistinctKeys settled_jobs
settled_jobs-HasDistinctKeys = (refl, (refl, tt))

settled_jobs-HasOwnKeys : HasOwnKeys settled_jobs
settled_jobs-HasOwnKeys = (refl, (refl, tt))

recover_pointwise_example :
    get (recover_expired_jobs settled_jobs (at 70)).jobs "job-1"
    ≡ recover_found (at 70) (get settled_jobs "job-1")
recover_pointwise_example =
    recover_pointwise settled_jobs (at 70) "job-1" settled_jobs-HasDistinctKeys
      settled_jobs-HasOwnKeys

recovery_leaves_no_stale_job_example : is_stale (recover_stale (at 70) interrupted) (at 70) ≡ false
recovery_leaves_no_stale_job_example =
    recovery_leaves_no_stale_job settled_jobs (at 70) "job-1" (recover_stale (at 70) interrupted)
      settled_jobs-HasDistinctKeys settled_jobs-HasOwnKeys recover_pointwise_example
