-- ===== src/Service/Sync.antt =====
-- Campaigns brought up to date with their plans and jobs: `_sync_campaign`,
-- `_sync_campaigns_for_remediation` and `_stop_remaining_campaign_hosts` (service.py).
use aisys_adm.Prelude.{
  String, Bool, false, not, ◌||◌, ◌==◌, Option, none, some, List, [], ◌∷◌, any, mem_text, same_text,
  ◌is◌, ◌is_in◌, if◌then◌else◌,
}
use aisys_adm.Models.Enums.{CampaignHostState, campaign_host_state_enum}
use aisys_adm.Models.Words.{
  JobStatus, job_status_enum, ApprovalState, ExecutionState, execution_state_enum,
}
use aisys_adm.Models.Values.{Datetime, Dict, get, put, has_text, nonempty}
use aisys_adm.Models.Remediations.{Remediation}
use aisys_adm.Models.Jobs.{DurableJob}
use aisys_adm.Models.Campaigns.{CampaignHostPlan, PatchCampaign}
use aisys_adm.Gate.Campaign.{stop_campaign_after_failure}
use aisys_adm.Gate.Projection.{project_campaign}
use aisys_adm.Repository.Jobs.{cancel_job}
use aisys_adm.Service.World.{Environment, Action, pure, ◌>>=◌, ◌>>◌, gets, each, collect_each, when}
use aisys_adm.Service.Records.{
  dict_values, or_empty, now, fresh, on_jobs, find_host, find_remediation, save_remediation,
  save_campaign,
}
use aisys_adm.Service.Plans.{ensure_current_remediation_plan}

-- {item.host_id: item for item in …}: the last one of a host wins.
abbrev pub by_host : List Remediation → Dict Remediation → Dict Remediation
by_host [] d = d
by_host (r ∷ rs) d = by_host rs (put d r.host_id r)

abbrev pub linked : List Remediation → List String → List Remediation
linked [] ids = []
linked (r ∷ rs) ids = let rest = linked rs ids in if mem_text r.id ids then r ∷ rest else rest

-- A plan of a host that has nothing but its names.
abbrev pub blank_plan : String → String → String → String → Datetime → Datetime → CampaignHostPlan
blank_plan id campaign_id host_id hostname created_at updated_at = record {
  id = id;
  campaign_id = campaign_id;
  host_id = host_id;
  hostname = hostname;
  state = CampaignHostState.selected;
  scan_id = none;
  remediation_id = none;
  plan_version = none;
  plan_hash = none;
  approval_state = ApprovalState.pending;
  reboot_approval_state = ApprovalState.pending;
  approved_plan_version = none;
  approved_plan_hash = none;
  approved_by = none;
  approved_at = none;
  reboot_approved_by = none;
  reboot_approved_at = none;
  reboot_approved_plan_version = none;
  reboot_approved_plan_hash = none;
  job_id = none;
  failure_summary = none;
  created_at = created_at;
  updated_at = updated_at;
}

abbrev pub with_proposal : CampaignHostPlan → Option Remediation → CampaignHostPlan
with_proposal plan none = plan
with_proposal plan (some r) = record plan {
  remediation_id = some r.id;
  plan_version = some r.plan_version;
  plan_hash = some r.plan_hash;
  state = CampaignHostState.awaiting_approval;
}

-- What the jobs of the plans are, as far as they are known.
abbrev pub plan_jobs : List CampaignHostPlan → Dict DurableJob → Dict DurableJob
plan_jobs [] jobs = []
plan_jobs (plan ∷ plans) jobs =
    let rest = plan_jobs plans jobs in
    elim plan.job_id [
      | none ↦ rest
      | some id ↦
          if id == ""
          then rest
          else elim (get jobs id) [ none ↦ rest | some job ↦ put rest job.id job ]
    ]

module _ (env : Environment) where
  -- The plan of one host of a campaign that was stored without plans.
  unfoldable pub restored_plan :
      PatchCampaign → Dict Remediation → Datetime → String → Action CampaignHostPlan
  restored_plan campaign remediation_by_host current host_id = do
    id ← fresh env "campaign-host"
    host ← find_host host_id
    pure (
        with_proposal (blank_plan id campaign.id host_id host.name campaign.created_at current)
          (get remediation_by_host host_id))

  unfoldable pub restore_plans : PatchCampaign → Datetime → Action PatchCampaign
  unfolding restored_plan
  restore_plans campaign current = if nonempty campaign.hosts then pure campaign else do
    remediations ← gets (λ s. dict_values s.remediations)
    plans ←
        collect_each campaign.host_ids (
          restored_plan campaign (by_host (linked remediations campaign.remediation_ids) [])
            current)
    pure (record campaign { hosts = plans })

  -- The remediation of a plan, reconciled, where it is known.
  unfoldable pub current_remediation :
      Option Remediation → Dict Remediation → Action (Dict Remediation)
  unfolding ensure_current_remediation_plan
  current_remediation none found = pure found
  current_remediation (some r) found = do
    reconciliation ← ensure_current_remediation_plan env r
    let updated = reconciliation.remediation
    pure (put found updated.id updated)

  unfoldable pub current_remediations :
      List CampaignHostPlan → Dict Remediation → Action (Dict Remediation)
  unfolding current_remediation
  current_remediations [] found = pure found
  current_remediations (plan ∷ plans) found = do
    r ← gets (λ s.
        if has_text plan.remediation_id
        then get s.remediations (or_empty plan.remediation_id)
        else none)
    next ← current_remediation r found
    current_remediations plans next

  unfoldable pub sync_campaign : PatchCampaign → Action PatchCampaign
  unfolding restore_plans current_remediations
  sync_campaign campaign = do
    current ← now env
    restored ← restore_plans campaign current
    remediations ← current_remediations restored.hosts []
    jobs ← gets (λ s. plan_jobs restored.hosts s.jobs)
    let projected = project_campaign env.hash restored remediations jobs current
    save_campaign projected
    pure projected

  -- remediation.execution_state in ("not_started", "queued", "waiting_for_window")
  abbrev pub not_begun : Remediation → Bool
  not_begun r = r.execution_state is_in (
      ExecutionState.not_started ∷ ExecutionState.queued ∷ ExecutionState.waiting_for_window ∷ [])

  unfoldable pub cancel_remediation : Option String → Datetime → Action (Unit {0})
  cancel_remediation remediation_id current = when (has_text remediation_id) (do
    r ← find_remediation remediation_id
    when (not_begun r) (
        save_remediation
          (record r { execution_state = ExecutionState.canceled; updated_at = current })))

  -- self.repository.cancel_job(job_id, now, phase=phase) if job_id else None
  unfoldable pub cancel_plan_job : Option String → Datetime → String → Action (Option DurableJob)
  cancel_plan_job none current phase = pure none
  cancel_plan_job (some id) current phase =
      if id == ""
      then pure none
      else on_jobs
          (λ jobs. cancel_job jobs id current (JobStatus.queued ∷ JobStatus.scheduled ∷ []) phase)

  abbrev pub job_is : Option DurableJob → JobStatus → Bool
  job_is none status = false
  job_is (some job) status = job.status is status

  unfoldable pub stop_host : Datetime → CampaignHostPlan → Action CampaignHostPlan
  unfolding cancel_remediation cancel_plan_job
  stop_host current plan = do
    job ← cancel_plan_job plan.job_id current "canceled_after_campaign_failure"
    if job_is job JobStatus.running
        then pure (record plan { state = CampaignHostState.running; updated_at = current })
        else do
          cancel_remediation plan.remediation_id current
          pure (record plan {
            state = CampaignHostState.canceled;
            failure_summary = some "Canceled because another campaign host failed";
            updated_at = current;
          })

  unfoldable pub stop_host_unless_ended :
      String → Datetime → CampaignHostPlan → Action CampaignHostPlan
  unfolding stop_host
  stop_host_unless_ended failed_id current plan =
      if same_text plan.remediation_id (some failed_id)
        || plan.state is_in (
            CampaignHostState.succeeded ∷ CampaignHostState.failed ∷ CampaignHostState.no_action
            ∷ CampaignHostState.running ∷ [])
      then pure plan
      else stop_host current plan

  unfoldable pub stop_remaining_campaign_hosts : PatchCampaign → String → Action PatchCampaign
  unfolding stop_host_unless_ended
  stop_remaining_campaign_hosts campaign failed_id = do
    failed ← find_remediation (some failed_id)
    if not (stop_campaign_after_failure failed) then pure campaign else do
      current ← now env
      plans ← collect_each campaign.hosts (stop_host_unless_ended failed_id current)
      let stopped = record campaign { hosts = plans; updated_at = current }
      save_campaign stopped
      pure stopped

  unfoldable pub sync_linked : String → Bool → PatchCampaign → Action (Unit {0})
  unfolding sync_campaign stop_remaining_campaign_hosts
  sync_linked remediation_id stop_remaining campaign =
      if not (
        any (λ (plan : CampaignHostPlan). same_text plan.remediation_id (some remediation_id))
          campaign.hosts)
      then pure tt
      else do
        stopped ←
            (if stop_remaining
              then stop_remaining_campaign_hosts campaign remediation_id
              else pure campaign)
        synced ← sync_campaign stopped
        pure tt

  unfoldable pub sync_campaigns_for_remediation : String → Bool → Action (Unit {0})
  unfolding sync_linked
  sync_campaigns_for_remediation remediation_id stop_remaining = do
    campaigns ← gets (λ s. dict_values s.campaigns)
    each campaigns (sync_linked remediation_id stop_remaining)
