-- ===== src/Service/Snapshots.antt =====
-- Rollback snapshots before a change, and the job that deletes one after its retention
-- (`_create_rollback_snapshot` and `_schedule_snapshot_delete_job` of service.py).
use aisys_adm.Prelude.{
  String, Bool, true, false, not, Option, none, some, [], ◌∷◌, ◌++◌, if◌then◌else◌,
}
use Prim.Native.String.{◌++◌ as append}
use aisys_adm.Models.Enums.{SnapshotPlatform, RollbackSnapshotState}
use aisys_adm.Models.Words.{JobStatus, JobType}
use aisys_adm.Models.Values.{Datetime, Json}
use aisys_adm.Models.Hosts.{Host}
use aisys_adm.Models.Snapshots.{RollbackSnapshot}
use aisys_adm.Models.Remediations.{Remediation, ExecutionResult, ExecutionPhase}
use aisys_adm.Models.Jobs.{DurableJob}
use aisys_adm.Models.Records.{SnapshotOperationResult}
use aisys_adm.Gate.Outcome.{snapshot_creation}
use aisys_adm.Repository.Jobs.{save_job}
use aisys_adm.Service.World.{
  Environment, Raised, Call, Action, pure, raise, ◌>>=◌, ◌>>◌, gets, if_some, days_after,
}
use aisys_adm.Service.Records.{
  now, fresh, redact, audit, on_jobs, save_rollback_snapshot, save_log_events,
  get_job_by_idempotency,
}
use aisys_adm.Service.Failures.{await}

abbrev pub new_snapshot : String → Host → Remediation → Datetime → RollbackSnapshot
new_snapshot id host r current = record {
  id = id;
  host_id = host.id;
  remediation_id = r.id;
  provider = host.snapshot_platform;
  external_snapshot_id = none;
  state = RollbackSnapshotState.creating;
  delete_after = none;
  created_at = current;
  updated_at = current;
  failure_summary = none;
  health_check_result = [];
}

-- The value of the member of the enumeration.
abbrev pub platform_value : SnapshotPlatform → String
platform_value SnapshotPlatform.none = "none"
platform_value SnapshotPlatform.proxmox = "proxmox"
platform_value SnapshotPlatform.aws = "aws"
platform_value SnapshotPlatform.vmware = "vmware"
platform_value SnapshotPlatform.libvirt = "libvirt"

abbrev pub phase : String → Bool → String → ExecutionPhase
phase name succeeded summary = record {
  name = name;
  state = if succeeded then "succeeded" else "failed";
  summary = summary;
  output = "";
  changed = false;
}

abbrev pub add_phase : ExecutionResult → ExecutionPhase → ExecutionResult
add_phase result phase = record result { phases = result.phases ++ phase ∷ [] }

abbrev pub delete_job : String → RollbackSnapshot → Host → Json → Datetime → DurableJob
delete_job id snapshot host delete_after current = record {
  id = id;
  job_type = JobType.snapshot_delete;
  status = JobStatus.scheduled;
  host_id = some host.id;
  scan_id = none;
  remediation_id = some snapshot.remediation_id;
  campaign_id = none;
  approved_plan_version = none;
  approved_plan_hash = none;
  approval_scope = none;
  idempotency_key = append "snapshot-delete:" snapshot.id;
  progress_percent = 0;
  current_phase = some "waiting_for_retention";
  attempts = 0;
  max_attempts = 3;
  lease_owner = none;
  lease_expires_at = none;
  heartbeat_at = none;
  last_failure = none;
  error = none;
  result = ("rollback_snapshot_id", Json.text snapshot.id) ∷ ("delete_after", delete_after) ∷ [];
  created_at = current;
  started_at = none;
  completed_at = none;
  updated_at = current;
}

module _ (env : Environment) where
  -- What becomes of a snapshot that the provider was asked for.
  unfoldable pub created_snapshot :
      DurableJob
      → Remediation
      → Host
      → RollbackSnapshot
      → SnapshotOperationResult
      → Action RollbackSnapshot
  created_snapshot job r host snapshot result = do
    save_log_events result.events
    current ← now env
    safe_summary ← redact env result.summary (some host.id)
    let creation = snapshot_creation result.success safe_summary
    if not creation.allowed
        then (do
          save_rollback_snapshot
              (record snapshot { updated_at = current; failure_summary = some safe_summary })
          raise (Raised.non_retryable creation.message creation.category))
        else do
          let created = record snapshot {
            updated_at = current;
            external_snapshot_id = result.external_snapshot_id;
            state = RollbackSnapshotState.created;
          }
          save_rollback_snapshot created
          audit env "system" "snapshot.created" "rollback_snapshot" (some snapshot.id) (
              ("host_id", Json.text host.id)
              ∷ ("remediation_id", Json.text r.id)
              ∷ ("provider", Json.text (platform_value snapshot.provider))
              ∷ [])
          pure created

  unfoldable pub create_rollback_snapshot :
      DurableJob → Remediation → Host → String → Action RollbackSnapshot
  unfolding created_snapshot
  create_rollback_snapshot job r host lease_owner = do
    current ← now env
    id ← fresh env "rollback-snapshot"
    let snapshot = new_snapshot id host r current
    save_rollback_snapshot snapshot
    result ←
        await env (Call.creates_snapshot host r) (λ n. env.create_snapshot n host r snapshot) job.id
          lease_owner
    created_snapshot job r host snapshot result

  abbrev pub json_time : Option Datetime → Json
  json_time none = Json.null
  json_time (some t) = Json.text (env.isoformat t)

  unfoldable pub schedule_snapshot_delete_job : RollbackSnapshot → Host → Action DurableJob
  schedule_snapshot_delete_job snapshot host = do
    existing ← gets (λ s. get_job_by_idempotency s.jobs (append "snapshot-delete:" snapshot.id))
    if_some existing pure (do
      current ← now env
      id ← fresh env "job"
      let job = delete_job id snapshot host (json_time snapshot.delete_after) current
      on_jobs (λ jobs. save_job jobs job none)
      audit env "system" "snapshot.delete_scheduled" "rollback_snapshot" (some snapshot.id)
          (("job_id", Json.text job.id) ∷ ("delete_after", json_time snapshot.delete_after) ∷ [])
      pure job)

  -- The health checks passed: the snapshot is kept for a while, and its deletion is scheduled.
  unfoldable pub keep_snapshot :
      RollbackSnapshot → Host → ExecutionResult → Action (ExecutionResult × RollbackSnapshot)
  unfolding schedule_snapshot_delete_job
  keep_snapshot snapshot host result = do
    current ← now env
    let until = days_after current host.snapshot_retention_days
    let kept = record snapshot { delete_after = some until }
    save_rollback_snapshot kept
    scheduled ← schedule_snapshot_delete_job kept host
    let noted = add_phase result (
        phase "snapshot_delete_scheduled" true
          (append "Snapshot deletion scheduled for " (append (env.isoformat until) ".")))
    pure (
      record noted {
        summary =
            append result.summary
              (append " Snapshot deletion job " (append scheduled.id " is scheduled."));
      },
      kept,
    )
