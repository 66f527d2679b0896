-- ===== src/Service/Protection.antt =====
-- What follows a change under a rollback snapshot: `_finish_snapshot_protected_execution`
-- (service.py).
use aisys_adm.Prelude.{String, Bool, false, some, [], ◌∷◌, ◌++◌, if◌then◌else◌}
use aisys_adm.Models.Enums.{Severity}
use aisys_adm.Models.Hosts.{Host}
use aisys_adm.Models.Snapshots.{RollbackSnapshot}
use aisys_adm.Models.Remediations.{Remediation, ExecutionResult}
use aisys_adm.Models.Jobs.{DurableJob}
use aisys_adm.Models.Records.{SnapshotOperationResult, SnapshotHealthResult}
use aisys_adm.Gate.Outcome.{PostChangeAction, post_change_health, rollback_result}
use aisys_adm.Service.World.{Environment, Call, Action, pure, ◌>>=◌, ◌>>◌}
use aisys_adm.Service.Records.{now, redact, create_alert, save_rollback_snapshot}
use aisys_adm.Service.Failures.{await}
use aisys_adm.Service.Snapshots.{phase, add_phase, keep_snapshot}

module _ (env : Environment) where
  abbrev pub rollback_alert_title : Bool → String
  rollback_alert_title success =
      if success then "Snapshot rollback completed" else "Snapshot rollback failed"

  abbrev pub rollback_alert_message : Bool → String
  rollback_alert_message success =
      if success
      then "Post-reboot health checks failed. Snapshot rollback completed and human intervention is required."
      else "Post-reboot health checks failed and snapshot rollback failed. Block further execution until human intervention is complete."

  -- What the provider's rollback leaves: the snapshot, an alert and a result that has failed.
  unfoldable pub rolled_back :
      DurableJob
      → Host
      → RollbackSnapshot
      → ExecutionResult
      → SnapshotOperationResult
      → Action (ExecutionResult × RollbackSnapshot)
  unfolding create_alert
  rolled_back job host snapshot result rollback = do
    current ← now env
    safe_summary ← redact env rollback.summary (some host.id)
    let decided = rollback_result rollback.success
    let after_rollback = record snapshot {
      updated_at = current;
      failure_summary = some safe_summary;
      state = decided.snapshot_state;
    }
    save_rollback_snapshot after_rollback
    create_alert env Severity.critical (rollback_alert_title rollback.success)
        (rollback_alert_message rollback.success) (some host.id) (some job.id)
    let noted =
        add_phase (record result { events = result.events ++ rollback.events })
          (phase "snapshot_rollback" rollback.success rollback.summary)
    pure (
      record noted {
        success = false;
        summary = decided.summary;
        failure_actions_taken =
            result.failure_actions_taken
            ++ "snapshot rollback attempted" ∷ "operator alert recorded"
              ∷ "human intervention required" ∷ [];
      },
      after_rollback,
    )

  -- What the gate asks for after the health checks.
  unfoldable pub act_on :
      PostChangeAction
      → DurableJob
      → Remediation
      → Host
      → RollbackSnapshot
      → ExecutionResult
      → String
      → String
      → Action (ExecutionResult × RollbackSnapshot)
  unfolding keep_snapshot rolled_back
  act_on PostChangeAction.complete job r host snapshot result summary lease_owner =
      keep_snapshot env snapshot host result
  act_on PostChangeAction.rollback job r host snapshot result summary lease_owner = do
    safe_summary ← redact env summary (some host.id)
    let failing = record snapshot { failure_summary = some safe_summary }
    save_rollback_snapshot failing
    rollback ←
        await env (Call.rolls_back host r) (λ n. env.rollback_snapshot n host r failing) job.id
          lease_owner
    rolled_back job host failing result rollback

  unfoldable pub after_health_checks :
      DurableJob
      → Remediation
      → Host
      → RollbackSnapshot
      → ExecutionResult
      → SnapshotHealthResult
      → String
      → Action (ExecutionResult × RollbackSnapshot)
  unfolding act_on
  after_health_checks job r host snapshot result health lease_owner = do
    current ← now env
    let decided = post_change_health health.healthy
    let noted =
        add_phase (record result { events = result.events ++ health.events })
          (phase "post_reboot_health_check" health.healthy health.summary)
    let checked = record snapshot {
      health_check_result = health.checks;
      updated_at = current;
      state = decided.snapshot_state;
    }
    act_on decided.action job r host checked noted health.summary lease_owner

  -- `_finish_snapshot_protected_execution`, once the job is saved in its new phase.
  unfoldable pub finish_snapshot_protected_execution :
      DurableJob
      → Remediation
      → Host
      → RollbackSnapshot
      → ExecutionResult
      → String
      → Action (ExecutionResult × RollbackSnapshot)
  unfolding after_health_checks
  finish_snapshot_protected_execution job r host snapshot result lease_owner = do
    health ←
        await env (Call.checks_health host r) (λ n. env.run_health_checks n host r snapshot) job.id
          lease_owner
    after_health_checks job r host snapshot result health lease_owner
