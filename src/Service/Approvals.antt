-- ===== src/Service/Approvals.antt =====
-- `approve_remediation_plan`, `approve_remediation_reboot`, `reject_remediation` and
-- `prepare_remediation_job` (service.py).
use aisys_adm.Prelude.{
  String, Bool, true, false, not, ◌&&◌, Option, none, some, [], ◌∷◌, ◌is◌, if◌then◌else◌,
}
use Prim.Native.String.{◌++◌ as append}
use aisys_adm.Models.Words.{JobStatus, JobType, ApprovalState, approval_state_enum, ExecutionState}
use aisys_adm.Models.Values.{Datetime, Json, JsonDict}
use aisys_adm.Models.Hosts.{Host}
use aisys_adm.Models.Remediations.{Remediation, ApprovalRequest}
use aisys_adm.Models.Jobs.{DurableJob}
use aisys_adm.Gate.Plan.{expected_job_scope, set_reboot_approved}
use aisys_adm.Gate.Transitions.{approve_plan, approve_reboot}
use aisys_adm.Gate.Execution.{duplicate_execution}
use aisys_adm.Gate.Timing.{TimingDecision, timing}
use aisys_adm.Repository.Jobs.{save_job}
use aisys_adm.Service.World.{
  Environment, Raised, Action, pure, or_raise, ◌>>=◌, ◌>>◌, gets, raise_if, when, transaction,
}
use aisys_adm.Service.Records.{
  or_empty, now, fresh, audit, on_jobs, find_host, find_remediation, save_remediation,
  raise_gate_denial, get_job_by_idempotency,
}
use aisys_adm.Service.Plans.{ensure_current_remediation_plan, trusted_execution_decision}
use aisys_adm.Service.Sync.{sync_campaigns_for_remediation}

abbrev pub plan_details : Remediation → JsonDict
plan_details r =
    ("plan_version", Json.num r.plan_version) ∷ ("plan_hash", Json.text r.plan_hash) ∷ []

-- "remediation:%s:%s" % (remediation.id, remediation.plan_hash)
abbrev pub remediation_key : Remediation → String
remediation_key r = append "remediation:" (append r.id (append ":" r.plan_hash))

abbrev pub remediation_job :
    String → Remediation → Host → Option String → JobStatus → Datetime → DurableJob
remediation_job id r host campaign_id status current = record {
  id = id;
  job_type = JobType.remediation;
  status = status;
  host_id = some host.id;
  scan_id = r.scan_id;
  remediation_id = some r.id;
  campaign_id = campaign_id;
  approved_plan_version = some r.plan_version;
  approved_plan_hash = some r.plan_hash;
  approval_scope = some (expected_job_scope r);
  idempotency_key = remediation_key r;
  progress_percent = 0;
  current_phase = none;
  attempts = 0;
  max_attempts = 3;
  lease_owner = none;
  lease_expires_at = none;
  heartbeat_at = none;
  last_failure = none;
  error = none;
  result = [];
  created_at = current;
  started_at = none;
  completed_at = none;
  updated_at = current;
}

module _ (env : Environment) where
  unfoldable pub approve_remediation_plan : String → ApprovalRequest → String → Action Remediation
  approve_remediation_plan remediation_id request actor = do
    stored ← find_remediation (some remediation_id)
    host ← find_host stored.host_id
    reconciliation ← ensure_current_remediation_plan env stored
    current ← now env
    let transition = approve_plan env.hash reconciliation.remediation host request actor current
    raise_gate_denial transition.decision
    let r = transition.remediation
    save_remediation r
    audit env actor "remediation.plan_approved" "remediation" (some r.id) (plan_details r)
    sync_campaigns_for_remediation env r.id false
    pure r

  unfoldable pub approve_remediation_reboot : String → ApprovalRequest → String → Action Remediation
  approve_remediation_reboot remediation_id request actor = do
    stored ← find_remediation (some remediation_id)
    host ← find_host stored.host_id
    reconciliation ← ensure_current_remediation_plan env stored
    current ← now env
    let transition = approve_reboot env.hash reconciliation.remediation host request actor current
    let r = transition.remediation
    if transition.decision.allowed then pure tt else do
      kept ← find_remediation (some remediation_id)
      when (not (env.same_remediation r kept))
          (do save_remediation r; sync_campaigns_for_remediation env r.id false)
      raise_gate_denial transition.decision
    save_remediation r
    audit env actor "remediation.reboot_approved" "remediation" (some r.id) (plan_details r)
    sync_campaigns_for_remediation env r.id false
    pure r

  unfoldable pub reject_remediation : String → String → Action Remediation
  reject_remediation remediation_id actor = do
    stored ← find_remediation (some remediation_id)
    raise_if (not (stored.approval_state is ApprovalState.pending))
        (Raised.value_error "Only pending remediations can be rejected")
    current ← now env
    let r = record stored {
      approval_state = ApprovalState.rejected;
      reboot_approval_state = ApprovalState.rejected;
      reboot_assessment = set_reboot_approved false stored.reboot_assessment;
      execution_state = ExecutionState.blocked;
      updated_at = current;
    }
    save_remediation r
    audit env actor "remediation.rejected" "remediation" (some remediation_id) []
    sync_campaigns_for_remediation env r.id false
    pure r

  -- A plan that has no job yet: its job is saved, and the plan waits for it.
  unfoldable pub queue_remediation :
      Remediation → Host → String → Option String → Datetime → TimingDecision → Action DurableJob
  queue_remediation r host actor campaign_id current decided = do
    id ← fresh env "job"
    let job = remediation_job id r host campaign_id decided.job_status current
    save_remediation (record r { execution_state = decided.remediation_state })
    on_jobs (λ jobs. save_job jobs job none)
    audit env actor "remediation.execution_queued" "remediation" (some r.id)
        (("job_id", Json.text job.id) ∷ ("plan_hash", Json.text r.plan_hash) ∷ [])
    pure job

  -- The job of the plan, and whether it is a new one.
  unfoldable pub job_of_plan :
      Option DurableJob
      → Remediation
      → Host
      → String
      → Option String
      → Datetime
      → Action (DurableJob × Bool)
  unfolding queue_remediation
  job_of_plan (some existing) r host actor campaign_id current = do
    raise_gate_denial (duplicate_execution existing campaign_id)
    pure (existing, false)
  job_of_plan none r host actor campaign_id current = do
    decided ← or_raise (timing env.calendar r current) (Raised.other "Invalid maintenance window")
    job ← queue_remediation r host actor campaign_id current decided
    pure (job, true)

  unfoldable pub prepare_in_transaction :
      String → String → Option String → Action (DurableJob × Bool)
  unfolding job_of_plan
  prepare_in_transaction remediation_id actor campaign_id = do
    stored ← find_remediation (some remediation_id)
    host ← find_host stored.host_id
    (eligibility, r) ← trusted_execution_decision env stored host none
    raise_gate_denial eligibility
    current ← now env
    existing ← gets (λ s. get_job_by_idempotency s.jobs (remediation_key r))
    job_of_plan existing r host actor campaign_id current

  unfoldable pub prepare_remediation_job :
      String → String → Option String → Bool → Action DurableJob
  unfolding prepare_in_transaction
  prepare_remediation_job remediation_id actor campaign_id sync_campaigns = do
    (job, created) ← transaction (prepare_in_transaction remediation_id actor campaign_id)
    when (sync_campaigns && created)
        (sync_campaigns_for_remediation env (or_empty job.remediation_id) false)
    pure job
