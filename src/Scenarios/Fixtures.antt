-- ===== src/Scenarios/Fixtures.antt =====
-- The concrete data of the scenarios: one host, one plan and its requests, a campaign and a job.
use Prim.Native.String.{◌++◌ as append}
use aisys_adm.Prelude.{ℕ, String, true, false, none, some, [], ◌∷◌, if◌then◌else◌, ◌is◌}
use aisys_adm.Models.Enums.{Severity, SnapshotPlatform, CampaignStatus, CampaignHostState}
use aisys_adm.Models.Words.{
  JobStatus, JobType, ApprovalState, ExecutionState, RebootStatus, reboot_status_enum, RebootPolicy,
  ExecutionTiming, DecisionStatus,
}
use aisys_adm.Models.Values.{Datetime, Dict}
use aisys_adm.Models.Hosts.{Host}
use aisys_adm.Models.Remediations.{Remediation, ApprovalRequest}
use aisys_adm.Models.Jobs.{DurableJob}
use aisys_adm.Models.Campaigns.{CampaignHostPlan, PatchCampaign}
use aisys_adm.Gate.Plan.{PlanPayload}

-- In place of SHA-256: a text that shows a few parts of the content.
abbrev pub digest : PlanPayload → String
digest p = append p.host_id (
    append "/" (
      append p.update_scope
        (if p.reboot.status is RebootStatus.not_expected then "" else "/reboot")))

abbrev pub at : ℕ → Datetime
at n = record { tz_aware = true; instant = n }

abbrev pub host : Host
host = record {
  name = "web-1";
  address = "192.0.2.10";
  port = 22;
  username = "ops";
  distro_family = "debian";
  environment = "production";
  tags = [];
  criticality = "high";
  availability_class = "single";
  credential_id = some "cred-1";
  ssh_host_key_fingerprint = some "SHA256:key";
  snapshot_platform = SnapshotPlatform.none;
  snapshot_credential_id = none;
  snapshot_target_id = none;
  snapshot_provider_metadata = [];
  critical_service_name = none;
  health_check_url = none;
  snapshot_retention_days = 7;
  patch_policy = record {
    update_mode = "security";
    execution_timing = ExecutionTiming.immediate;
    maintenance_window = none;
    max_batch_size = 2;
    canary_count = 1;
    reboot_policy = RebootPolicy.if_required;
  };
  id = "host-1";
  connection_status = "trusted";
  created_at = at 0;
  updated_at = at 0;
}

-- A pending plan that expects no reboot.
abbrev pub plan : Remediation
plan = record {
  id = "rem-1";
  host_id = "host-1";
  scan_id = some "scan-1";
  title = "Security updates";
  action_type = "package_upgrade";
  update_scope = "security";
  risk_level = Severity.medium;
  ai_decision = record {
    update_scope = "security";
    risk_level = Severity.medium;
    explanation = "Two packages have security updates";
    status = DecisionStatus.plan_ready;
    supporting_citations = "scan-1:packages" ∷ [];
    unresolved_conflicts = [];
    agent_assignments = [];
  };
  reboot_assessment = record {
    status = RebootStatus.not_expected;
    rationale = "";
    evidence = [];
    estimated_downtime_minutes = 0;
    approved_if_required = false;
  };
  rollout_policy = record { strategy = "single"; batch_size = 1; canary_count = 1; rationale = "" };
  failure_policy = record {
    stop_remaining_hosts = true;
    notify_operator = true;
    attempt_predefined_recovery = false;
    recovery_actions = [];
  };
  execution_timing = ExecutionTiming.immediate;
  maintenance_window = none;
  approval_scope = "patch_only";
  approval_state = ApprovalState.pending;
  reboot_approval_state = ApprovalState.not_required;
  execution_state = ExecutionState.not_started;
  plan_version = 1;
  plan_hash = "host-1/security";
  approved_by = none;
  approved_at = none;
  approved_plan_version = none;
  approved_plan_hash = none;
  reboot_approved_by = none;
  reboot_approved_at = none;
  reboot_approved_plan_version = none;
  reboot_approved_plan_hash = none;
  result = none;
  pre_change_protection = [];
  created_at = at 0;
  updated_at = at 0;
}

-- The same plan where a reboot is likely.
abbrev pub risky_plan : Remediation
risky_plan = record plan {
  plan_hash = "host-1/security/reboot";
  reboot_assessment = record plan.reboot_assessment { status = RebootStatus.likely };
  reboot_approval_state = ApprovalState.pending;
}

-- The plan once it is approved, and one that was widened after that.
abbrev pub approved_plan : Remediation
approved_plan = record plan {
  approval_state = ApprovalState.approved;
  approved_by = some "alice";
  approved_at = some (at 10);
  approved_plan_version = some 1;
  approved_plan_hash = some "host-1/security";
}

abbrev pub widened_plan : Remediation
widened_plan = record approved_plan { update_scope = "all" }

abbrev pub request_for : Remediation → ApprovalRequest
request_for r = record {
  plan_version = r.plan_version;
  plan_hash = r.plan_hash;
  hostname_confirmation = "web-1";
}

abbrev pub job : DurableJob
job = record {
  id = "job-1";
  job_type = JobType.remediation;
  status = JobStatus.queued;
  host_id = some "host-1";
  scan_id = some "scan-1";
  remediation_id = some "rem-1";
  campaign_id = none;
  approved_plan_version = some 1;
  approved_plan_hash = some "host-1/security";
  approval_scope = some "patch_only";
  idempotency_key = "rem-1:1";
  progress_percent = 0;
  current_phase = some "queued";
  attempts = 0;
  max_attempts = 3;
  lease_owner = none;
  lease_expires_at = none;
  heartbeat_at = none;
  last_failure = none;
  error = none;
  result = [];
  created_at = at 0;
  started_at = none;
  completed_at = none;
  updated_at = at 0;
}

abbrev pub jobs : Dict DurableJob
jobs = ("job-1", job) ∷ []

abbrev pub host_plan : CampaignHostPlan
host_plan = record {
  id = "plan-1";
  campaign_id = "camp-1";
  host_id = "host-1";
  hostname = "web-1";
  state = CampaignHostState.approved;
  scan_id = some "scan-1";
  remediation_id = some "rem-1";
  plan_version = some 1;
  plan_hash = some "host-1/security";
  approval_state = ApprovalState.approved;
  reboot_approval_state = ApprovalState.not_required;
  approved_plan_version = some 1;
  approved_plan_hash = some "host-1/security";
  approved_by = some "alice";
  approved_at = some (at 10);
  reboot_approved_by = none;
  reboot_approved_at = none;
  reboot_approved_plan_version = none;
  reboot_approved_plan_hash = none;
  job_id = none;
  failure_summary = none;
  created_at = at 0;
  updated_at = at 0;
}

abbrev pub remediations : Dict Remediation
remediations = ("rem-1", approved_plan) ∷ []

abbrev pub campaign : PatchCampaign
campaign = record {
  id = "camp-1";
  name = "Monthly patches";
  host_ids = "host-1" ∷ [];
  remediation_ids = "rem-1" ∷ [];
  hosts = host_plan ∷ [];
  status = CampaignStatus.ready;
  batch_size = 2;
  current_batch = 0;
  total_batches = 1;
  failure_summary = none;
  canceled_by = none;
  canceled_at = none;
  created_at = at 0;
  updated_at = at 0;
}
