-- ===== src/Service/Rollout.antt =====
-- The batches of a campaign: `prepare_campaign_execution` and `cancel_campaign` (service.py).
use aisys_adm.Prelude.{
  String, Bool, true, false, not, ◌&&◌, ◌||◌, ◌==◌, Option, none, some, List, [], ◌∷◌, all,
  mem_text, ◌is◌, ◌is_in◌, if◌then◌else◌,
}
use aisys_adm.Models.Enums.{
  CampaignStatus, campaign_status_enum, CampaignHostState, campaign_host_state_enum,
}
use aisys_adm.Models.Words.{JobStatus, job_status_enum, FailureCategory, failure_category_enum}
use aisys_adm.Models.Values.{Datetime, Dict, Json, put, has_text, nonempty}
use aisys_adm.Models.Remediations.{Remediation}
use aisys_adm.Models.Jobs.{DurableJob}
use aisys_adm.Models.Campaigns.{CampaignHostPlan, PatchCampaign}
use aisys_adm.Gate.Decision.{GateCode, GateDecision, deny_safety, reasons}
use aisys_adm.Gate.Campaign.{campaign_batch, start_campaign_batch}
use aisys_adm.Service.World.{
  World, Environment, Raised, Action, Result, ok, err, pure, ◌>>=◌, ◌>>◌, raise_if, collect_each,
  transaction,
}
use aisys_adm.Service.Records.{
  or_empty, now, redact, audit, find_remediation, campaign_host, raise_gate_denial, save_campaign,
}
use aisys_adm.Service.Sync.{sync_campaign, cancel_remediation, cancel_plan_job, job_is}
use aisys_adm.Service.Approvals.{prepare_remediation_job}
use aisys_adm.Service.Scans.{update_plan}
use aisys_adm.Service.Recovery.{somes}
use aisys_adm.Service.Campaigns.{
  text_items, job_ids, all_first, all_second, get_campaign, validate_campaign_plan_binding,
}

-- try: … except GateDenied: what was written before stays written.
abbrev pub or_denied :
    {A : Type 0} → Result Raised A × World → (GateDecision → Action A) → Result Raised A × World
or_denied (ok a, w) handler = (ok a, w)
or_denied (err (Raised.gate_denied decision), w) handler = handler decision w
or_denied (err (Raised.value_error message), w) handler = (err (Raised.value_error message), w)
or_denied (err Raised.job_lease_lost, w) handler = (err Raised.job_lease_lost, w)
or_denied (err (Raised.non_retryable message category), w) handler =
    (err (Raised.non_retryable message category), w)
or_denied (err (Raised.other message), w) handler = (err (Raised.other message), w)

unfoldable pub unless_denied : {A : Type 0} → Action A → (GateDecision → Action A) → Action A
unless_denied m handler w = or_denied (m w) handler

-- {job.host_id: job for job in jobs if job.host_id}: the last one of a host wins.
abbrev pub jobs_by_host : List DurableJob → Dict DurableJob → Dict DurableJob
jobs_by_host [] d = d
jobs_by_host (job ∷ jobs) d = elim job.host_id [
  | none ↦ jobs_by_host jobs d
  | some id ↦ if id == "" then jobs_by_host jobs d else jobs_by_host jobs (put d id job)
]

abbrev pub not_prepared : GateDecision → String → Datetime → CampaignHostPlan → CampaignHostPlan
not_prepared decision summary current plan = record plan {
  state =
      if decision.category is FailureCategory.approval_validation
      then CampaignHostState.plan_changed
      else CampaignHostState.blocked;
  failure_summary = some summary;
  updated_at = current;
}

-- No host of the campaign can run any more.
abbrev pub is_completed : PatchCampaign → Bool
is_completed campaign =
    campaign.status
      is_in (CampaignStatus.succeeded ∷ CampaignStatus.failed ∷ CampaignStatus.canceled ∷ [])
    || campaign.status is CampaignStatus.partially_succeeded
      && all
          (λ (plan : CampaignHostPlan). plan.state is_in (
            CampaignHostState.succeeded ∷ CampaignHostState.failed ∷ CampaignHostState.canceled
            ∷ CampaignHostState.rejected ∷ CampaignHostState.blocked ∷ CampaignHostState.no_action
            ∷ []))
          campaign.hosts

-- job and job.status not in ("canceled", "queued", "scheduled")
abbrev pub has_ended : Option DurableJob → Bool
has_ended none = false
has_ended (some job) =
    not (job.status is_in (JobStatus.canceled ∷ JobStatus.queued ∷ JobStatus.scheduled ∷ []))

module _ (env : Environment) where
  -- {host_plan.remediation_id: … for host_plan in campaign.hosts if host_plan.remediation_id}
  unfoldable pub plan_remediations :
      List CampaignHostPlan → Dict Remediation → Action (Dict Remediation)
  plan_remediations [] d = pure d
  plan_remediations (plan ∷ plans) d =
      if not (has_text plan.remediation_id) then plan_remediations plans d else do
        r ← find_remediation plan.remediation_id
        plan_remediations plans (put d (or_empty plan.remediation_id) r)

  -- The plans that have changed are shown as such.
  unfoldable pub mark_changed : PatchCampaign → List String → Action PatchCampaign
  mark_changed campaign [] = pure campaign
  mark_changed campaign (host_id ∷ host_ids) = do
    campaign_host campaign host_id
    current ← now env
    mark_changed
        (record campaign {
          hosts = update_plan campaign.hosts host_id (λ (plan : CampaignHostPlan). record plan {
            state = CampaignHostState.plan_changed;
            failure_summary = some (reasons GateCode.campaign_plan_changed);
            updated_at = current;
          });
        })
        host_ids

  unfoldable pub prepare_host_job : PatchCampaign → String → CampaignHostPlan → Action DurableJob
  prepare_host_job campaign actor plan = do
    r ← find_remediation plan.remediation_id
    validate_campaign_plan_binding env plan r
    prepare_remediation_job env (or_empty plan.remediation_id) actor (some campaign.id) false

  unfoldable pub prepare_host :
      PatchCampaign
      → List String
      → String
      → CampaignHostPlan
      → Action (CampaignHostPlan × Option DurableJob)
  unfolding prepare_host_job
  prepare_host campaign selected actor plan =
      if not (mem_text plan.host_id selected) || not (has_text plan.remediation_id)
      then pure (plan, none)
      else unless_denied (do job ← prepare_host_job campaign actor plan; pure (plan, some job))
          (λ decision. do
            summary ← redact env decision.message (some plan.host_id)
            current ← now env
            pure (not_prepared decision summary current plan, none))

  -- No host has a job: the batch does not start.
  unfoldable pub require_jobs : PatchCampaign → List DurableJob → Action (Unit {0})
  require_jobs campaign jobs = if nonempty jobs then pure tt else do
    sync_campaign env campaign
    save_campaign campaign
    raise_gate_denial (deny_safety GateCode.campaign_no_approved_hosts)

  unfoldable pub prepare_batch : String → String → Action (PatchCampaign × List DurableJob)
  unfolding plan_remediations mark_changed prepare_host require_jobs
  prepare_batch campaign_id actor = do
    campaign ← get_campaign env campaign_id
    remediations ← plan_remediations campaign.hosts []
    let batch = campaign_batch env.hash campaign remediations
    marked ← mark_changed campaign batch.plan_changed_host_ids
    raise_gate_denial batch.decision
    results ← collect_each marked.hosts (prepare_host marked batch.host_ids actor)
    let jobs = somes (all_second results)
    let prepared = record marked { hosts = all_first results }
    require_jobs prepared jobs
    current ← now env
    let started = start_campaign_batch prepared (jobs_by_host jobs []) current
    save_campaign started
    audit env actor "campaign.execution_queued" "campaign" (some started.id)
        (("job_ids", Json.array (text_items (job_ids jobs))) ∷ [])
    pure (started, jobs)

  unfoldable pub prepare_campaign_execution :
      String → String → Action (PatchCampaign × List DurableJob)
  unfolding prepare_batch
  prepare_campaign_execution campaign_id actor = transaction (prepare_batch campaign_id actor)

  -- The plan of a host as it is canceled, and whether its job is running.
  unfoldable pub cancel_host : Datetime → CampaignHostPlan → Action (CampaignHostPlan × Bool)
  cancel_host current plan =
      if plan.state is_in (
        CampaignHostState.succeeded ∷ CampaignHostState.failed ∷ CampaignHostState.no_action ∷ [])
      then pure (plan, false)
      else do
        job ← cancel_plan_job env plan.job_id current "canceled"
        if job_is env job JobStatus.running
            then pure
                (record plan { state = CampaignHostState.running; updated_at = current }, true)
            else if has_ended job
            then pure (record plan { updated_at = current }, false)
            else do
              cancel_remediation env plan.remediation_id current
              pure (record plan { state = CampaignHostState.canceled; updated_at = current }, false)

  unfoldable pub cancel_hosts :
      Datetime → List CampaignHostPlan → Action (List CampaignHostPlan × Bool)
  unfolding cancel_host
  cancel_hosts current [] = pure ([], false)
  cancel_hosts current (plan ∷ plans) = do
    (canceled, running) ← cancel_host current plan
    (rest, any_running) ← cancel_hosts current plans
    pure (canceled ∷ rest, running || any_running)

  unfoldable pub cancel_in_transaction : String → String → Action PatchCampaign
  unfolding cancel_hosts
  cancel_in_transaction campaign_id actor = do
    campaign ← get_campaign env campaign_id
    raise_if (is_completed campaign) (Raised.value_error "Completed campaigns cannot be canceled")
    current ← now env
    (plans, has_running) ← cancel_hosts current campaign.hosts
    let canceled = record campaign {
      hosts = plans;
      status = if has_running then CampaignStatus.cancelling else CampaignStatus.canceled;
      canceled_by = some actor;
      canceled_at = some current;
      updated_at = current;
    }
    save_campaign canceled
    audit env actor "campaign.canceled" "campaign" (some canceled.id) []
    pure canceled

  unfoldable pub cancel_campaign : String → String → Action PatchCampaign
  unfolding cancel_in_transaction
  cancel_campaign campaign_id actor = transaction (cancel_in_transaction campaign_id actor)
