-- ===== src/Service/Scans.antt =====
-- Scans that are asked for, and the plans of a campaign's hosts that come of them: `create_scan_job`,
-- `_mark_campaign_proposal_running`, `_mark_campaign_proposal_failed` and `_attach_campaign_proposal`
-- (service.py).
use aisys_adm.Prelude.{
  String, Bool, ◌&&◌, ◌==◌, Option, none, some, List, [], ◌∷◌, ◌++◌, any, length, clip, ceil_div,
  mem_text, same_text, ◌is◌, ◌is_in◌, if◌then◌else◌,
}
use Prim.Native.String.{◌++◌ as append}
use aisys_adm.Models.Enums.{CampaignStatus, CampaignHostState}
use aisys_adm.Models.Words.{JobStatus, job_status_enum, JobType, job_type_enum, ApprovalState}
use aisys_adm.Models.Values.{Datetime, Json, has_text}
use aisys_adm.Models.Hosts.{Host}
use aisys_adm.Models.Remediations.{Remediation}
use aisys_adm.Models.Scans.{ScanRequest, ScanJob}
use aisys_adm.Models.Jobs.{DurableJob}
use aisys_adm.Models.Campaigns.{CampaignHostPlan, PatchCampaign}
use aisys_adm.Gate.Campaign.{campaign_rollout_limit}
use aisys_adm.Repository.Jobs.{Jobs, save_job}
use aisys_adm.Repository.Recovery.{values}
use aisys_adm.Service.World.{
  Environment, Raised, Action, pure, or_raise, ◌>>=◌, ◌>>◌, gets, raise_if, collect_each, if_some,
}
use aisys_adm.Service.Records.{
  dict_values, or_empty, now, fresh, redact, audit, on_jobs, find_host, find_campaign,
  campaign_host, get_job_by_idempotency, save_scan, save_campaign,
}
use aisys_adm.Service.Sync.{linked, sync_campaign}

abbrev pub queued_scan : String → Host → ScanRequest → Option String → String → Datetime → ScanJob
queued_scan id host request campaign_id job_id current = record {
  id = id;
  host_id = host.id;
  durable_job_id = some job_id;
  snapshot_id = none;
  trigger = request.trigger;
  status = "queued";
  finding_ids = [];
  remediation_ids = [];
  agent_run_ids = [];
  agent_reports = [];
  campaign_id = campaign_id;
  error = none;
  created_at = current;
  updated_at = current;
}

abbrev pub scan_job : String → Host → String → Option String → String → Datetime → DurableJob
scan_job id host scan_id campaign_id key current = record {
  id = id;
  job_type = JobType.scan;
  status = JobStatus.queued;
  host_id = some host.id;
  scan_id = some scan_id;
  remediation_id = none;
  campaign_id = campaign_id;
  approved_plan_version = none;
  approved_plan_hash = none;
  approval_scope = none;
  idempotency_key = key;
  progress_percent = 0;
  current_phase = none;
  attempts = 0;
  max_attempts = 3;
  lease_owner = none;
  lease_expires_at = none;
  heartbeat_at = none;
  last_failure = none;
  error = none;
  result = [];
  created_at = current;
  started_at = none;
  completed_at = none;
  updated_at = current;
}

-- `host_has_active_scan` of the repository.
unfoldable pub host_has_active_scan : Jobs → String → Bool
host_has_active_scan jobs host_id =
    any
      (λ (job : DurableJob).
        same_text job.host_id (some host_id)
        && job.job_type is JobType.scan
        && job.status is_in (JobStatus.queued ∷ JobStatus.running ∷ []))
      (values jobs)

-- The first plan of the host, changed.
abbrev pub update_plan :
    List CampaignHostPlan → String → (CampaignHostPlan → CampaignHostPlan) → List CampaignHostPlan
update_plan [] host_id change = []
update_plan (plan ∷ plans) host_id change =
    let rest = update_plan plans host_id change in
    if plan.host_id == host_id then change plan ∷ plans else plan ∷ rest

abbrev pub proposed : CampaignHostPlan → Remediation → Datetime → CampaignHostPlan
proposed plan r current = record plan {
  job_id = none;
  failure_summary = none;
  scan_id = r.scan_id;
  remediation_id = some r.id;
  plan_version = some r.plan_version;
  plan_hash = some r.plan_hash;
  approval_state = r.approval_state;
  reboot_approval_state = r.reboot_approval_state;
  state = CampaignHostState.awaiting_approval;
  updated_at = current;
}

abbrev pub nothing_to_do : Datetime → CampaignHostPlan → CampaignHostPlan
nothing_to_do current plan = record plan {
  job_id = none;
  failure_summary = none;
  state = CampaignHostState.no_action;
  approval_state = ApprovalState.not_required;
  reboot_approval_state = ApprovalState.not_required;
  updated_at = current;
}

module _ (env : Environment) where
  -- The key of the request, or one of the host, the trigger and the minute.
  unfoldable pub scan_key : ScanRequest → Host → Action String
  scan_key request host =
      if has_text request.idempotency_key then pure (or_empty request.idempotency_key) else do
        current ← now env
        pure (
            append "scan:" (
              append host.id
                (append ":" (append request.trigger (append ":" (env.minute_stamp current))))))

  unfoldable pub queue_scan :
      ScanRequest → Host → String → String → Option String → Action DurableJob
  queue_scan request host key actor campaign_id = do
    active ← gets (λ s. host_has_active_scan s.jobs host.id)
    raise_if (request.trigger == "scheduled" && active)
        (Raised.value_error "A scan is already queued or running for this host")
    current ← now env
    scan_id ← fresh env "scan"
    job_id ← fresh env "job"
    let job = scan_job job_id host scan_id campaign_id key current
    save_scan (queued_scan scan_id host request campaign_id job_id current)
    on_jobs (λ jobs. save_job jobs job none)
    audit env actor "scan.queued" "scan" (some scan_id)
        (("job_id", Json.text job_id) ∷ ("trigger", Json.text request.trigger) ∷ [])
    pure job

  unfoldable pub create_scan_job : ScanRequest → String → Option String → Action DurableJob
  unfolding scan_key queue_scan
  create_scan_job request actor campaign_id = do
    host ← find_host request.host_id
    key ← scan_key request host
    existing ← gets (λ s. get_job_by_idempotency s.jobs key)
    if_some existing pure (queue_scan request host key actor campaign_id)

  unfoldable pub mark_campaign_proposal_running : String → String → Action (Unit {0})
  mark_campaign_proposal_running campaign_id host_id = do
    campaign ← find_campaign campaign_id
    campaign_host campaign host_id
    plan_time ← now env
    current ← now env
    save_campaign (record campaign {
      hosts = update_plan campaign.hosts host_id (λ (plan : CampaignHostPlan). record plan {
        state = CampaignHostState.proposal_running;
        updated_at = plan_time;
      });
      status = CampaignStatus.proposing;
      updated_at = current;
    })

  unfoldable pub mark_campaign_proposal_failed : String → String → String → Action (Unit {0})
  mark_campaign_proposal_failed campaign_id host_id error = do
    campaign ← find_campaign campaign_id
    campaign_host campaign host_id
    safe_error ← redact env error (some host_id)
    plan_time ← now env
    current ← now env
    let failed = record campaign {
      hosts = update_plan campaign.hosts host_id (λ (plan : CampaignHostPlan). record plan {
        state = CampaignHostState.failed;
        failure_summary = some (clip 2000 safe_error);
        updated_at = plan_time;
      });
      updated_at = current;
    }
    save_campaign failed
    sync_campaign env failed
    pure tt

  -- The rollout limits with the plan of another host among them.
  unfoldable pub with_remediation :
      PatchCampaign → String → Remediation → Datetime → Action PatchCampaign
  with_remediation campaign host_id r current = do
    let ids =
        if mem_text r.id campaign.remediation_ids
        then campaign.remediation_ids
        else campaign.remediation_ids ++ r.id ∷ []
    hosts ← collect_each campaign.hosts (λ (plan : CampaignHostPlan). find_host plan.host_id)
    remediations ← gets (λ s. linked (dict_values s.remediations) ids)
    batch_size ←
        or_raise (campaign_rollout_limit hosts remediations)
          (Raised.value_error "min() arg is an empty sequence")
    pure (record campaign {
      remediation_ids = ids;
      batch_size = batch_size;
      total_batches = ceil_div (length campaign.hosts) batch_size;
      hosts =
          update_plan campaign.hosts host_id (λ (plan : CampaignHostPlan). proposed plan r current);
    })

  unfoldable pub attach_campaign_proposal : String → Host → Option Remediation → Action (Unit {0})
  unfolding with_remediation
  attach_campaign_proposal campaign_id host proposal = do
    campaign ← find_campaign campaign_id
    campaign_host campaign host.id
    current ← now env
    attached ←
        if_some proposal (λ r. with_remediation campaign host.id r current)
          (pure (record campaign {
            hosts = update_plan campaign.hosts host.id (nothing_to_do current);
          }))
    let changed = record attached { updated_at = current }
    save_campaign changed
    sync_campaign env changed
    pure tt
