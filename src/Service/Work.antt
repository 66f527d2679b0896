-- ===== src/Service/Work.antt =====
-- `process_remediation` (service.py): a worker takes a remediation job, unless it is canceled, has to
-- wait or is refused, and settles what becomes of the plan when the work ends with an exception.
use aisys_adm.Prelude.{
  String, Bool, true, false, not, ◌&&◌, Option, none, some, [], ◌∷◌, ◌is◌, ◌is_in◌, if◌then◌else◌,
}
use aisys_adm.Models.Enums.{CampaignStatus, campaign_status_enum}
use aisys_adm.Models.Words.{
  JobStatus, job_status_enum, ExecutionState, FailureCategory, failure_category_enum,
}
use aisys_adm.Models.Values.{has_text}
use aisys_adm.Models.Hosts.{Host}
use aisys_adm.Models.Remediations.{Remediation}
use aisys_adm.Models.Jobs.{DurableJob, JobFailure}
use aisys_adm.Gate.Decision.{GateDecision}
use aisys_adm.Gate.Outcome.{stale_recovery}
use aisys_adm.Gate.Timing.{timing}
use aisys_adm.Repository.Jobs.{save_job, claim_job, cancel_job}
use aisys_adm.Service.World.{
  World, Environment, Raised, Action, Result, ok, err, pure, or_raise, ◌>>=◌, ◌>>◌, when, if_some,
  seconds_after,
}
use aisys_adm.Service.Records.{
  or_empty, now, fresh, redact, on_jobs, find_host, find_job, find_remediation, find_campaign,
  save_remediation,
}
use aisys_adm.Service.Plans.{trusted_execution_decision}
use aisys_adm.Service.Sync.{job_is, sync_campaigns_for_remediation}
use aisys_adm.Service.Failures.{fail_job}
use aisys_adm.Service.Execution.{Stopped, Work, process_claimed_remediation}

-- str(error)
abbrev pub raised_text : Raised → String
raised_text (Raised.value_error message) = message
raised_text (Raised.gate_denied decision) = decision.message
raised_text Raised.job_lease_lost = ""
raised_text (Raised.non_retryable message category) = message
raised_text (Raised.other message) = message

-- getattr(error, "category", usual)
abbrev pub raised_category : Raised → FailureCategory → FailureCategory
raised_category (Raised.non_retryable message category) usual = category
raised_category (Raised.value_error message) usual = usual
raised_category (Raised.gate_denied decision) usual = usual
raised_category Raised.job_lease_lost usual = usual
raised_category (Raised.other message) usual = usual

-- not isinstance(error, NonRetryableJobError)
abbrev pub is_retryable : Raised → Bool
is_retryable (Raised.non_retryable message category) = false
is_retryable (Raised.value_error message) = true
is_retryable (Raised.gate_denied decision) = true
is_retryable Raised.job_lease_lost = true
is_retryable (Raised.other message) = true

-- try: … except: the handler sees the job object as it was when the work stopped.
abbrev pub or_handle :
    {A : Type 0}
    → Result Stopped A × World
    → (Raised → DurableJob → Action A)
    → Result Raised A × World
or_handle (ok a, w) handler = (ok a, w)
or_handle (err (e, job), w) handler = handler e job w

unfoldable pub handled : {A : Type 0} → Work A → (Raised → DurableJob → Action A) → Action A
handled m handler w = or_handle (m w) handler

-- job.last_failure and job.last_failure.category == "worker_lease_expired"
abbrev pub lease_had_expired : Option JobFailure → Bool
lease_had_expired none = false
lease_had_expired (some failure) = failure.category is FailureCategory.worker_lease_expired

abbrev pub state_after_failure : DurableJob → FailureCategory → ExecutionState
state_after_failure failed category =
    if failed.status is JobStatus.queued
    then ExecutionState.queued
    else if category
        is_in (FailureCategory.approval_validation ∷ FailureCategory.safety_validation ∷ [])
    then ExecutionState.blocked
    else ExecutionState.failed

module _ (env : Environment) where
  -- existing.status == "queued" and existing.campaign_id and the campaign is canceled
  unfoldable pub campaign_is_canceled : DurableJob → Action Bool
  campaign_is_canceled job =
      if not (job.status is JobStatus.queued && has_text job.campaign_id) then pure false else do
        campaign ← find_campaign (or_empty job.campaign_id)
        pure (campaign.status is CampaignStatus.canceled)

  unfoldable pub cancel_queued : DurableJob → Remediation → Action DurableJob
  cancel_queued existing r = do
    canceled_at ← now env
    canceled ←
        on_jobs (λ jobs. cancel_job jobs existing.id canceled_at (JobStatus.queued ∷ []) "canceled")
    when (job_is env canceled JobStatus.canceled) (do
      current ← now env
      save_remediation
          (record r { execution_state = ExecutionState.canceled; updated_at = current })
      sync_campaigns_for_remediation env r.id false)
    if_some canceled pure (find_job existing.id)

  -- The window of the plan is not open: its job waits again.
  unfoldable pub put_off : DurableJob → Remediation → Action DurableJob
  put_off existing r = do
    current ← now env
    let waiting = record existing {
      status = JobStatus.scheduled;
      current_phase = some "waiting_for_maintenance_window";
      updated_at = current;
    }
    on_jobs (λ jobs. save_job jobs waiting none)
    sync_campaigns_for_remediation env r.id false
    pure waiting

  unfoldable pub claim_lease : String → String → Action (Option DurableJob)
  claim_lease job_id owner = do
    claimed_at ← now env
    on_jobs (λ jobs.
        claim_job jobs job_id owner claimed_at (seconds_after claimed_at env.job_lease_seconds))

  -- The plan in a state in which it does not run, and its job failed for good.
  unfoldable pub refuse :
      DurableJob
      → Remediation
      → Host
      → String
      → ExecutionState
      → GateDecision
      → Bool
      → Action DurableJob
  refuse job r host owner state decision stop_remaining = do
    current ← now env
    save_remediation (record r { execution_state = state; updated_at = current })
    failed ← fail_job env job decision.message host.id (some owner) false decision.category
    sync_campaigns_for_remediation env r.id stop_remaining
    pure failed

  -- The handlers of the exceptions of the work.
  unfoldable pub stop_work :
      String → Remediation → Host → String → Raised → DurableJob → Action DurableJob
  stop_work job_id r host owner Raised.job_lease_lost job = find_job job_id
  stop_work job_id r host owner e job = do
    let category = raised_category e FailureCategory.remediation_execution
    error_text ← redact env (raised_text e) (some host.id)
    failed ← fail_job env job error_text host.id (some owner) (is_retryable e) category
    kept ← find_remediation (some r.id)
    current ← now env
    save_remediation (record kept {
      execution_state = state_after_failure failed category;
      updated_at = current;
    })
    sync_campaigns_for_remediation env r.id (failed.status is JobStatus.failed)
    pure failed

  -- The job is claimed. Work that a lost lease broke off is not repeated where it may have changed the host.
  unfoldable pub work_on : DurableJob → String → Action DurableJob
  unfolding refuse stop_work
  work_on job owner = do
    stored ← find_remediation job.remediation_id
    host ← find_host stored.host_id
    let recovery = stale_recovery env.show job false
    if lease_had_expired job.last_failure && not recovery.dispatch
        then refuse job stored host owner recovery.remediation_state recovery.decision true
        else do
          (eligibility, r) ← trusted_execution_decision env stored host (some job)
          if not eligibility.allowed
              then refuse job r host owner ExecutionState.blocked eligibility false
              else handled (process_claimed_remediation env job r host owner)
                  (stop_work job.id r host owner)

  unfoldable pub take_on : String → Option String → Action DurableJob
  unfolding claim_lease work_on
  take_on job_id worker_id = do
    owner ← (if has_text worker_id then pure (or_empty worker_id) else fresh env "worker")
    job ← claim_lease job_id owner
    if_some job (λ claimed_job. work_on claimed_job owner) (find_job job_id)

  unfoldable pub process_remediation : String → Option String → Action DurableJob
  unfolding campaign_is_canceled cancel_queued put_off take_on
  process_remediation job_id worker_id = do
    existing ← find_job job_id
    r ← find_remediation existing.remediation_id
    host ← find_host r.host_id
    canceled ← campaign_is_canceled existing
    if canceled then cancel_queued existing r else do
      current ← now env
      decided ← or_raise (timing env.calendar r current) (Raised.other "Invalid maintenance window")
      if existing.status is JobStatus.queued && not decided.decision.allowed
          then put_off existing r
          else take_on job_id worker_id
