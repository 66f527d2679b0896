-- ===== src/Service/Deletion.antt =====
-- `process_snapshot_delete` and `_process_claimed_snapshot_delete` (service.py).
use aisys_adm.Prelude.{String, true, false, Option, none, some, [], ◌∷◌, clip, if◌then◌else◌}
use aisys_adm.Models.Enums.{Severity, RollbackSnapshotState}
use aisys_adm.Models.Words.{FailureCategory}
use aisys_adm.Models.Values.{Json, has_text, put}
use aisys_adm.Models.Hosts.{Host}
use aisys_adm.Models.Snapshots.{RollbackSnapshot}
use aisys_adm.Models.Jobs.{DurableJob}
use aisys_adm.Models.Records.{SnapshotOperationResult}
use aisys_adm.Service.World.{Environment, Raised, Call, Action, pure, raise, ◌>>=◌, ◌>>◌, if_some}
use aisys_adm.Service.Records.{
  or_empty, now, fresh, redact, audit, create_alert, find_host, find_job, save_log_events,
  save_rollback_snapshot,
}
use aisys_adm.Service.Failures.{fail_job, save_claimed_job, await}
use aisys_adm.Service.Execution.{Work, holding, completed_job, enter_phase}
use aisys_adm.Service.Work.{handled, raised_text, raised_category, claim_lease}
use aisys_adm.Service.Recovery.{find_snapshot}

module _ (env : Environment) where
  -- The provider's answer is stored with the snapshot.
  unfoldable pub keep_deletion :
      DurableJob → RollbackSnapshot → Host → SnapshotOperationResult → Action RollbackSnapshot
  unfolding create_alert redact
  keep_deletion job snapshot host result = do
    save_log_events result.events
    current ← now env
    if result.success
        then (do
          let deleted = record snapshot {
            updated_at = current;
            state = RollbackSnapshotState.deleted;
            failure_summary = none;
          }
          save_rollback_snapshot deleted
          pure deleted)
        else do
          safe_summary ← redact env result.summary (some host.id)
          save_rollback_snapshot (record snapshot {
            updated_at = current;
            state = RollbackSnapshotState.delete_failed;
            failure_summary = some safe_summary;
          })
          create_alert env Severity.high "Snapshot delete failed" result.summary (some host.id)
              (some job.id)
          raise (Raised.non_retryable result.summary FailureCategory.snapshot_delete)

  unfoldable pub process_claimed_snapshot_delete :
      DurableJob → RollbackSnapshot → Host → String → Work DurableJob
  unfolding keep_deletion
  process_claimed_snapshot_delete job snapshot host lease_owner = do
    entered ← enter_phase env job "snapshot_delete" 50 lease_owner
    deleted ← holding entered (do
      result ←
          await env (Call.deletes_snapshot host entered.id)
            (λ n. env.delete_snapshot n host snapshot) entered.id lease_owner
      keep_deletion entered snapshot host result)
    completed_at ← holding entered (now env)
    updated_at ← holding entered (now env)
    let done =
        completed_job entered
          (put (put entered.result "success" (Json.bool true)) "rollback_snapshot_id"
            (Json.text deleted.id))
          completed_at updated_at
    saved ← holding done (save_claimed_job env done lease_owner)
    holding saved (
        audit env "system" "snapshot.deleted" "rollback_snapshot" (some deleted.id)
          (("job_id", Json.text saved.id) ∷ []))
    pure saved

  unfoldable pub stop_deletion :
      String → RollbackSnapshot → Host → String → Raised → DurableJob → Action DurableJob
  stop_deletion job_id snapshot host owner Raised.job_lease_lost job = find_job job_id
  stop_deletion job_id snapshot host owner e job = do
    error_text ← redact env (raised_text e) (some host.id)
    failed ←
        fail_job env job error_text host.id (some owner) false
          (raised_category e FailureCategory.snapshot_delete)
    current ← now env
    save_rollback_snapshot (record snapshot {
      state = RollbackSnapshotState.delete_failed;
      failure_summary = some (clip 2000 error_text);
      updated_at = current;
    })
    pure failed

  unfoldable pub delete_claimed : DurableJob → String → Action DurableJob
  unfolding process_claimed_snapshot_delete stop_deletion
  delete_claimed job owner = do
    snapshot ← find_snapshot env job
    if_some snapshot
        (λ found. do
          host ← find_host found.host_id
          handled (process_claimed_snapshot_delete job found host owner)
              (stop_deletion job.id found host owner))
        (fail_job env job "Rollback snapshot record not found" (or_empty job.host_id) (some owner)
          false FailureCategory.snapshot_delete)

  unfoldable pub process_snapshot_delete : String → Option String → Action DurableJob
  unfolding delete_claimed
  process_snapshot_delete job_id worker_id = do
    owner ← (if has_text worker_id then pure (or_empty worker_id) else fresh env "worker")
    job ← claim_lease env job_id owner
    if_some job (λ claimed_job. delete_claimed claimed_job owner) (find_job job_id)
