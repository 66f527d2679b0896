-- ===== src/Scenarios/Workflows.antt =====
-- Runs of the service on the data of `Fixtures`: one world with an approved plan and its job.
use aisys_adm.Prelude.{
  true, false, none, some, List, [], ◌∷◌, ◌≡◌, refl, ◌↔◌, ◌<◌, ◌≤◌, ◌⊎◌, ◌==◌, clip, if◌then◌else◌,
}
use aisys_adm.Models.Words.{JobStatus, FailureCategory}
use aisys_adm.Models.Values.{Float, get}
use aisys_adm.Models.Hosts.{Host}
use aisys_adm.Models.Snapshots.{RollbackSnapshot}
use aisys_adm.Models.Collected.{HostSnapshot}
use aisys_adm.Models.Remediations.{Remediation, ExecutionResult}
use aisys_adm.Models.Scans.{ScanJob}
use aisys_adm.Service.World.{Store, World, Environment}
use aisys_adm.Service.Requests.{Request, serve_all}
use aisys_adm.Prelude.{arith, eq_iff, inl}
use aisys_adm.Models.Enums.{CredentialType, SnapshotPlatform}
use aisys_adm.Models.Hosts.{HostInput}
use aisys_adm.Models.Records.{SshCredential}
use aisys_adm.Gate.Execution.{protection_planned}
use aisys_adm.Gate.Eligibility.Conditions.{SnapshotReady}
use aisys_adm.Service.Hosts.{new_host}
use aisys_adm.Service.Added.{create_host-SnapshotReady}
use aisys_adm.Models.Jobs.{DurableJob}
use aisys_adm.Models.Campaigns.{PatchCampaign}
use aisys_adm.Models.Records.{SnapshotOperationResult, CampaignRequest}
use aisys_adm.Gate.Decision.{GateCode, deny_safety}
use aisys_adm.Service.World.{Raised, ok, err}
use aisys_adm.Service.Kept.Served.{AllGuarded, changes_are_approved, HasKeys}
use aisys_adm.Service.Blocked.{rollback_blocks_host}
use aisys_adm.Service.Prepared.{IsPrepared, new_job-IsPrepared, failed_job_lem}
use aisys_adm.Gate.Approval.{approval_decision, catalog_decision, evidence_decision}
use aisys_adm.Service.Approvals.{prepare_in_transaction, prepare_remediation_job, remediation_job}
use aisys_adm.Gate.Plan.{plan_hash, plan_payload, reboot_risk}
use aisys_adm.Gate.Transitions.{reconcile_plan}
use aisys_adm.Service.Plans.{trusted_execution_decision}
use aisys_adm.Service.Campaigns.{new_campaign}
use aisys_adm.Service.Sync.{blank_plan}
use aisys_adm.Service.World.{
  each, collect_each, gets, if_some, modify, or_raise, pure, raise_if, ◌>>=◌, ◌>>◌,
}
use aisys_adm.Service.Failures.{failed_job}
use aisys_adm.Service.Protection.{rolled_back}
use aisys_adm.Service.Records.{
  audit, find_host, find_remediation, fresh, host_has_active_rollback_failure, is_rollback_failure,
  keep_schedule, now, on_jobs, raise_gate_denial, save_alert, save_audit, save_host,
  save_remediation, save_rollback_snapshot,
}
use aisys_adm.Service.Snapshots.{new_snapshot}
use aisys_adm.Gate.Decision.{allow, deny}
use aisys_adm.Service.Campaigns.{list_campaigns}
use aisys_adm.Service.Hosts.{
  purge_expired_logs, check_credential, create_host, save_schedule, validate_host_input,
}
use aisys_adm.Gate.Timing.{maintenance_window_is_open, timing}
use aisys_adm.Prelude.{same_num, same_text}
use aisys_adm.Gate.Execution.{execution_eligibility, protection_planned, snapshot_requirement}
use aisys_adm.Scenarios.Fixtures.{digest, at, host, plan, approved_plan, job}

abbrev execution : ExecutionResult
execution = record {
  success = true;
  summary = "Upgraded two packages";
  changed = true;
  reboot_performed = false;
  phases = [];
  events = [];
  failure_actions_taken = [];
}

abbrev zero_float : Float
zero_float = record { negative = false; multiple = 0 }

abbrev snapshot : HostSnapshot
snapshot = record {
  id = "snap-1";
  host_id = "host-1";
  collected_at = at 0;
  commands = [];
  evidence_states = [];
  package_summary = record {
    pending_security_updates = 0;
    pending_package_updates = 0;
    reboot_required_now = false;
    held_packages = [];
    updates = [];
  };
  service_summary = record { failed_units = []; restarting_units = []; degraded = false };
  system_summary = record {
    uptime_hours = zero_float;
    load_average = [];
    disk_usage_percent = zero_float;
    inode_usage_percent = zero_float;
    memory_usage_percent = zero_float;
    kernel_version = "6.1";
    boot_id = "boot-1";
  };
  network_summary = record {
    interfaces = [];
    default_routes = [];
    dns_servers = [];
    listening_ports = [];
  };
  logs = record { journal = ""; kernel = ""; auth = ""; apt_history = ""; reboot_history = "" };
  snapshot_hash = "";
}

abbrev scan : ScanJob
scan = record {
  id = "scan-1";
  host_id = "host-1";
  durable_job_id = none;
  snapshot_id = some "snap-1";
  trigger = "manual";
  status = "completed";
  finding_ids = [];
  remediation_ids = "rem-1" ∷ [];
  agent_run_ids = [];
  agent_reports = [];
  campaign_id = none;
  error = none;
  created_at = at 0;
  updated_at = at 0;
}

abbrev env : Environment
env = record {
  hash = digest;
  redact_text = λ text host. text;
  sanitize_audit_details = λ details. details;
  lower = λ text. if text == "Snapshot rollback failed" then "snapshot rollback failed" else text;
  show = λ v. "";
  isoformat = λ t. "";
  minute_stamp = λ t. "";
  calendar = record {
    local = λ zone t. none;
    combine = λ zone day hour minute. none;
    int = λ text. none;
  };
  next_run = λ cron zone t. none;
  same_remediation = λ r s. true;
  new_id = λ prefix n. prefix;
  utc_now = at;
  job_lease_seconds = 120;
  log_retention_days = 90;
  heartbeats = λ n. 1;
  collect = λ n host. ok (snapshot, []);
  execute = λ n host r. ok execution;
  create_snapshot = λ n host r snapshot. err (Raised.other "The provider is unreachable");
  run_health_checks = λ n host r snapshot. err (Raised.other "The provider is unreachable");
  rollback_snapshot = λ n host r snapshot. err (Raised.other "The provider is unreachable");
  delete_snapshot = λ n host snapshot. err (Raised.other "The provider is unreachable");
}

abbrev contents : Store
contents = record {
  hosts = ("host-1", host) ∷ [];
  credentials = [];
  schedules = [];
  snapshots = ("snap-1", snapshot) ∷ [];
  rollback_snapshots = [];
  scans = ("scan-1", scan) ∷ [];
  remediations = ("rem-1", approved_plan) ∷ [];
  campaigns = [];
  jobs = ("job-1", job) ∷ [];
  logs = [];
  alerts = [];
  audits = [];
}

abbrev world : World
world = record { store = contents; ticks = 0; in_transaction = false; calls = [] }

abbrev requests : List Request
requests =
    Request.process "job-1" (some "worker-1") ∷ Request.prepare_job "rem-1" "alice" none true ∷ []

changes_are_approved_example : AllGuarded env (serve_all env requests world).calls
changes_are_approved_example = changes_are_approved env requests world tt

abbrev rollback_snapshot : RollbackSnapshot
rollback_snapshot = new_snapshot "rs-1" host approved_plan (at 3)

abbrev failed_rollback : SnapshotOperationResult
failed_rollback = record {
  success = false;
  external_snapshot_id = none;
  summary = "storage is down";
  events = [];
}

-- The rollback has failed, and other requests were served since then.
abbrev after_rollback : World
after_rollback =
    serve_all env (Request.show_campaigns ∷ Request.log_purge ∷ [])
      (rolled_back env job host rollback_snapshot execution failed_rollback world).1

rollback_kept :
    get after_rollback.store.alerts "alert"
    ≡ get
        (rolled_back env job host rollback_snapshot execution failed_rollback world).1.store.alerts
        "alert"
unfolding rolled_back ◌>>=◌ purge_expired_logs list_campaigns gets save_rollback_snapshot each audit
    pure collect_each modify fresh save_alert save_audit now ◌>>◌
rollback_kept = refl

rollback_open :
    (trusted_execution_decision env approved_plan host (some job) after_rollback).0
    ≡ ok (deny_safety GateCode.active_rollback_failure, approved_plan)
unfolding execution_eligibility fresh gets host_has_active_rollback_failure is_rollback_failure
    modify now plan_hash plan_payload pure reconcile_plan rolled_back same_num same_text save_alert
    save_rollback_snapshot trusted_execution_decision ◌>>=◌ ◌>>◌ deny purge_expired_logs each
    list_campaigns collect_each save_audit
rollback_open = refl

rollback_blocks_host_example : (deny_safety GateCode.active_rollback_failure).allowed ≡ false
rollback_blocks_host_example =
    rollback_blocks_host env job host rollback_snapshot execution failed_rollback world
      after_rollback approved_plan (some job)
      (deny_safety GateCode.active_rollback_failure, approved_plan) refl rollback_kept rollback_open

abbrev idle_world : World
idle_world = record world { store = record contents { jobs = [] } }

abbrev new_job : DurableJob
new_job = remediation_job "job" approved_plan host none JobStatus.queued (at 1)

job_prepared : (prepare_in_transaction env "rem-1" "alice" none idle_world).0 ≡ ok (new_job, true)
unfolding allow approval_decision catalog_decision evidence_decision execution_eligibility find_host
    find_remediation fresh gets host_has_active_rollback_failure maintenance_window_is_open modify
    now on_jobs or_raise plan_hash plan_payload prepare_remediation_job protection_planned pure
    raise_gate_denial raise_if reboot_risk reconcile_plan same_num same_text save_audit
    save_remediation snapshot_requirement timing trusted_execution_decision ◌>>=◌ ◌>>◌
job_prepared = refl

idle-plan_keys : HasKeys (λ (r : Remediation). r.id) idle_world.store.remediations
idle-plan_keys key x e = ground (arith, eq_iff "rem-1" key)

new_job-IsPrepared_example :
    IsPrepared env "rem-1"
      (prepare_in_transaction env "rem-1" "alice" none idle_world).1.store
      new_job
new_job-IsPrepared_example =
    new_job-IsPrepared env "rem-1" "alice" none idle_world new_job idle-plan_keys job_prepared

failed_job_lem_example :
    let failed = failed_job env job "timed out" true FailureCategory.remediation_execution (at 9) in
    (failed.status ≡ JobStatus.queued ↔ (true ≡ true) × (job.attempts < job.max_attempts))
    × (failed.status ≡ JobStatus.failed ↔ (true ≡ false) ⊎ (job.max_attempts ≤ job.attempts))
    × (failed.status ≡ JobStatus.queued ↔ failed.error ≡ none)
    × (failed.status ≡ JobStatus.failed ↔ failed.error ≡ some (clip 2000 "timed out"))
    × (failed.lease_owner ≡ none)
    × (failed.lease_expires_at ≡ none)
    × (failed.attempts ≡ job.attempts)
failed_job_lem_example =
    failed_job_lem env job "timed out" true FailureCategory.remediation_execution (at 9)

abbrev selection : CampaignRequest
selection = record { name = "Monthly patches"; host_ids = "host-1" ∷ [] }

abbrev created : PatchCampaign
created =
    new_campaign "campaign" "Monthly patches" ("host-1" ∷ [])
      (blank_plan "campaign-host" "campaign" "host-1" "web-1" (at 0) (at 0) ∷ []) 2 (at 0)

abbrev credential : SshCredential
credential = record {
  id = "cred-9";
  name = "proxmox";
  credential_type = CredentialType.proxmox_token;
  fingerprint = "";
  metadata = [];
  created_at = at 0;
  last_used_at = none;
}

abbrev input : HostInput
input = record {
  name = "web-2";
  address = "192.0.2.11";
  port = 22;
  username = "ops";
  distro_family = "debian";
  environment = "production";
  tags = [];
  criticality = "normal";
  availability_class = "standard";
  credential_id = none;
  ssh_host_key_fingerprint = none;
  snapshot_platform = SnapshotPlatform.proxmox;
  snapshot_credential_id = some "cred-9";
  snapshot_target_id = some "vm-7";
  snapshot_provider_metadata = [];
  critical_service_name = none;
  health_check_url = none;
  snapshot_retention_days = 7;
  patch_policy = host.patch_policy;
}

abbrev equipped_world : World
equipped_world = record world {
  store = record contents { credentials = ("cred-9", credential) ∷ [] };
}

abbrev added : Host
added = new_host input "host" "untested" (at 0) (at 0)

host_added : (create_host env input "alice" equipped_world).0 ≡ ok added
unfolding create_host save_schedule validate_host_input check_credential find_host save_host
    keep_schedule audit save_audit now fresh gets or_raise raise_if pure if_some modify ◌>>=◌ ◌>>◌
host_added = refl

plan_without_protection : protection_planned plan ≡ false
unfolding protection_planned
plan_without_protection = refl

create_host-SnapshotReady_example : SnapshotReady plan added
create_host-SnapshotReady_example =
    create_host-SnapshotReady env input "alice" equipped_world added plan host_added
      (inl plan_without_protection)
