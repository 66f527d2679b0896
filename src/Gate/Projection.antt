-- ===== src/Gate/Projection.antt =====
-- The state of a campaign as its plans and jobs show it: `project_campaign` with
-- `_campaign_host_state` (trusted_change.py).
use aisys_adm.Prelude.{
  String, Bool, false, not, ◌&&◌, ◌||◌, Option, none, some, [], ◌∷◌, map, ◌is◌, ◌is_in◌,
  if◌then◌else◌,
}
use aisys_adm.Models.Enums.{campaign_status_enum, CampaignHostState, campaign_host_state_enum}
use aisys_adm.Models.Words.{
  JobStatus, job_status_enum, JobType, job_type_enum, ApprovalState, approval_state_enum,
  ExecutionState, execution_state_enum,
}
use aisys_adm.Models.Values.{Datetime, Dict, get?, has_text}
use aisys_adm.Models.Remediations.{Remediation, ExecutionResult}
use aisys_adm.Models.Jobs.{DurableJob}
use aisys_adm.Models.Campaigns.{CampaignHostPlan, PatchCampaign}
use aisys_adm.Gate.Decision.{GateCode, GateDecision, reasons}
use aisys_adm.Gate.Plan.{PlanPayload, reboot_risk}
use aisys_adm.Gate.Campaign.{campaign_plan_binding}
use aisys_adm.Gate.Rollup.{settle_campaign}

abbrev pub remediation_job_is : Option DurableJob → JobStatus → Bool
remediation_job_is none status = false
remediation_job_is (some job) status = job.job_type is JobType.remediation && job.status is status

-- The dictionary `execution_states`.
abbrev pub execution_states : ExecutionState → Option CampaignHostState
execution_states ExecutionState.succeeded = some CampaignHostState.succeeded
execution_states ExecutionState.failed = some CampaignHostState.failed
execution_states ExecutionState.running = some CampaignHostState.running
execution_states ExecutionState.queued = some CampaignHostState.queued
execution_states ExecutionState.waiting_for_window = some CampaignHostState.scheduled
execution_states ExecutionState.canceled = some CampaignHostState.canceled
execution_states ExecutionState.not_started = none
execution_states ExecutionState.blocked = none

-- The end of `_campaign_host_state`, where the approvals of a plan that has not changed decide.
unfoldable pub reviewed_host_state : Remediation → CampaignHostState
reviewed_host_state r =
    if r.approval_state is ApprovalState.rejected
    then CampaignHostState.rejected
    else if r.approval_state is ApprovalState.manual_review
    then CampaignHostState.blocked
    else if r.execution_state is ExecutionState.blocked
    then CampaignHostState.blocked
    else if not (r.approval_state is ApprovalState.approved)
    then CampaignHostState.awaiting_approval
    else if reboot_risk r
    then (if r.reboot_approval_state is ApprovalState.approved
        then CampaignHostState.approved
        else if r.reboot_approval_state is_in (ApprovalState.blocked ∷ ApprovalState.rejected ∷ [])
        then CampaignHostState.blocked
        else CampaignHostState.awaiting_reboot_approval)
    else CampaignHostState.approved

-- not binding.allowed or (state == PLAN_CHANGED and approval_state == "pending")
unfoldable pub plan_is_changed : CampaignHostState → Remediation → GateDecision → Bool
plan_is_changed state r binding =
    not binding.allowed
    || (state is CampaignHostState.plan_changed && r.approval_state is ApprovalState.pending)

unfoldable pub campaign_host_state :
    CampaignHostPlan → Remediation → Option DurableJob → GateDecision → CampaignHostState
campaign_host_state plan r job binding =
    if remediation_job_is job JobStatus.running
    then CampaignHostState.running
    else if remediation_job_is job JobStatus.canceled
    then CampaignHostState.canceled
    else elim (execution_states r.execution_state) [
      | some state ↦ state
      | none ↦
          if plan_is_changed plan.state r binding
          then CampaignHostState.plan_changed
          else reviewed_host_state r
    ]

-- The approvals that a host plan shows are those of its remediation.
unfoldable pub copy_approvals : CampaignHostPlan → Remediation → CampaignHostPlan
copy_approvals plan r = record plan {
  approval_state = r.approval_state;
  reboot_approval_state = r.reboot_approval_state;
  approved_plan_version = r.approved_plan_version;
  approved_plan_hash = r.approved_plan_hash;
  approved_by = r.approved_by;
  approved_at = r.approved_at;
  reboot_approved_by = r.reboot_approved_by;
  reboot_approved_at = r.reboot_approved_at;
  reboot_approved_plan_version = r.reboot_approved_plan_version;
  reboot_approved_plan_hash = r.reboot_approved_plan_hash;
}

-- if remediation.result and not remediation.result.success: failure_summary = result.summary
abbrev pub result_failure : Option ExecutionResult → Option String → Option String
result_failure none summary = summary
result_failure (some result) summary = if result.success then summary else some result.summary

-- The end of the loop's body: the state that was found, and the failure that goes with it.
unfoldable pub show_state :
    CampaignHostPlan → Remediation → CampaignHostState → Datetime → CampaignHostPlan
show_state plan r state current = record plan {
  state = state;
  failure_summary =
      if state is CampaignHostState.plan_changed
      then some (reasons GateCode.campaign_plan_changed)
      else result_failure r.result plan.failure_summary;
  updated_at = current;
}

-- The body of the loop over the hosts, once the remediation has been looked up.
module _ (hash : PlanPayload → String) where
  unfoldable pub project_host :
      CampaignHostPlan → Option Remediation → Option DurableJob → Datetime → CampaignHostPlan
  project_host plan none job current = record plan {
    state = CampaignHostState.failed;
    failure_summary = some "Remediation proposal no longer exists";
    updated_at = current;
  }
  project_host plan (some r) job current =
      let binding = campaign_plan_binding hash plan r in
      let copied = copy_approvals plan r in
      show_state copied r (campaign_host_state copied r job binding) current

  unfoldable pub project_plan :
      Dict Remediation → Dict DurableJob → Datetime → CampaignHostPlan → CampaignHostPlan
  unfolding project_host
  project_plan remediations jobs current plan =
      if not (has_text plan.remediation_id)
      then plan
      else project_host plan (get? remediations plan.remediation_id) (get? jobs plan.job_id) current

module _ (hash : PlanPayload → String) where
  unfoldable pub project_campaign :
      PatchCampaign → Dict Remediation → Dict DurableJob → Datetime → PatchCampaign
  project_campaign campaign remediations jobs current =
      settle_campaign
        (record campaign {
          hosts = map (project_plan hash remediations jobs current) campaign.hosts;
        })
        current
