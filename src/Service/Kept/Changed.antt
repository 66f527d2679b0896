-- ===== src/Service/Kept/Changed.antt =====
-- The work on a claimed remediation (service.py): what every stable invariant withstands. A change
-- on a host is made only after the gate has allowed it.
use aisys_adm.Prelude.{String, Option, none, some}
use aisys_adm.Models.Words.{job_status_enum}
use aisys_adm.Models.Hosts.{Host}
use aisys_adm.Models.Snapshots.{RollbackSnapshot}
use aisys_adm.Models.Remediations.{Remediation, ExecutionResult}
use aisys_adm.Models.Records.{SnapshotOperationResult, SnapshotHealthResult}
use aisys_adm.Models.Jobs.{DurableJob}
use aisys_adm.Gate.Decision.{GateDecision}
use aisys_adm.Gate.Outcome.{PostChangeAction}
use aisys_adm.Service.World.{World, Environment}
use aisys_adm.Service.Protection.{
  rolled_back, act_on, after_health_checks, finish_snapshot_protected_execution,
}
use aisys_adm.Service.Execution.{
  raise_unless, check_drift, protect, finish, keep_result, complete_remediation, begin_remediation,
  process_claimed_remediation,
}
use aisys_adm.Service.Kept.Rules.{Stable, Keeps}
use aisys_adm.Service.Kept.Plans.{plan_steps}
use aisys_adm.Service.Snapshots.{
  created_snapshot, create_rollback_snapshot, schedule_snapshot_delete_job, keep_snapshot,
}
use aisys_adm.Service.Kept.Guarded.{execute_change-Keeps}
use aisys_adm.Service.Kept.Executions.{holding-Keeps, require_eligible-Keeps, enter_phase-Keeps}

module _ {env : Environment} {I : World → Type 0} (stable : Stable env I) where
  raise_unless-Keeps : (d : GateDecision) → Keeps I (raise_unless env d)
  unfolding raise_unless
  raise_unless-Keeps d = search plan_steps

  check_drift-Keeps :
      (job : DurableJob) (r : Remediation) (host : Host) (owner : String)
      → Keeps I (check_drift env job r host owner)
  unfolding check_drift
  check_drift-Keeps job r host owner = search (plan_steps, raise_unless-Keeps) depth 24

  begin_remediation-Keeps :
      (job : DurableJob) (r : Remediation) (owner : String)
      → Keeps I (begin_remediation env job r owner)
  unfolding begin_remediation
  begin_remediation-Keeps job r owner = search (plan_steps, holding-Keeps) depth 24

  created_snapshot-Keeps :
      (job : DurableJob) (r : Remediation) (host : Host) (x : RollbackSnapshot)
      (result : SnapshotOperationResult)
      → Keeps I (created_snapshot env job r host x result)
  unfolding created_snapshot
  created_snapshot-Keeps job r host x result = search plan_steps depth 24

  create_rollback_snapshot-Keeps :
      (job : DurableJob) (r : Remediation) (host : Host) (owner : String)
      → Keeps I (create_rollback_snapshot env job r host owner)
  unfolding create_rollback_snapshot
  create_rollback_snapshot-Keeps job r host owner =
      search (plan_steps, created_snapshot-Keeps) depth 24

  protect-Keeps :
      (job : DurableJob) (r : Remediation) (host : Host) (owner : String)
      → Keeps I (protect env job r host owner)
  unfolding protect
  protect-Keeps job r host owner =
      search
        (
          plan_steps, holding-Keeps, raise_unless-Keeps, enter_phase-Keeps,
          create_rollback_snapshot-Keeps,
        )
        depth 24

  schedule_snapshot_delete_job-Keeps :
      (x : RollbackSnapshot) (host : Host) → Keeps I (schedule_snapshot_delete_job env x host)
  unfolding schedule_snapshot_delete_job
  schedule_snapshot_delete_job-Keeps x host = search plan_steps depth 24

  keep_snapshot-Keeps :
      (x : RollbackSnapshot) (host : Host) (result : ExecutionResult)
      → Keeps I (keep_snapshot env x host result)
  unfolding keep_snapshot
  keep_snapshot-Keeps x host result =
      search (plan_steps, schedule_snapshot_delete_job-Keeps) depth 24

  rolled_back-Keeps :
      (job : DurableJob) (host : Host) (x : RollbackSnapshot) (result : ExecutionResult)
      (rollback : SnapshotOperationResult)
      → Keeps I (rolled_back env job host x result rollback)
  unfolding rolled_back
  rolled_back-Keeps job host x result rollback = search plan_steps depth 24

  act_on-Keeps :
      (action : PostChangeAction) (job : DurableJob) (r : Remediation) (host : Host)
      (x : RollbackSnapshot) (result : ExecutionResult) (summary owner : String)
      → Keeps I (act_on env action job r host x result summary owner)
  unfolding act_on
  act_on-Keeps PostChangeAction.complete job r host x result summary owner =
      keep_snapshot-Keeps x host result
  act_on-Keeps PostChangeAction.rollback job r host x result summary owner =
      search (plan_steps, rolled_back-Keeps) depth 24

  after_health_checks-Keeps :
      (job : DurableJob) (r : Remediation) (host : Host) (x : RollbackSnapshot)
      (result : ExecutionResult) (health : SnapshotHealthResult) (owner : String)
      → Keeps I (after_health_checks env job r host x result health owner)
  unfolding after_health_checks
  after_health_checks-Keeps job r host x result health owner =
      search (plan_steps, act_on-Keeps) depth 24

  finish_snapshot_protected_execution-Keeps :
      (job : DurableJob) (r : Remediation) (host : Host) (x : RollbackSnapshot)
      (result : ExecutionResult) (owner : String)
      → Keeps I (finish_snapshot_protected_execution env job r host x result owner)
  unfolding finish_snapshot_protected_execution
  finish_snapshot_protected_execution-Keeps job r host x result owner =
      search (plan_steps, after_health_checks-Keeps) depth 24

  finish-Keeps :
      (job : DurableJob) (r : Remediation) (host : Host) (x : Option RollbackSnapshot)
      (result : ExecutionResult) (owner : String)
      → Keeps I (finish env job r host x result owner)
  unfolding finish
  finish-Keeps job r host none result owner = search plan_steps
  finish-Keeps job r host (some x) result owner =
      search
        (plan_steps, holding-Keeps, enter_phase-Keeps, finish_snapshot_protected_execution-Keeps)
        depth 24

  keep_result-Keeps :
      (r : Remediation) (x : Option RollbackSnapshot) (result : ExecutionResult)
      → Keeps I (keep_result env r x result)
  unfolding keep_result
  keep_result-Keeps r x result = search plan_steps depth 24

  complete_remediation-Keeps :
      (job : DurableJob) (r : Remediation) (result : ExecutionResult) (owner : String)
      → Keeps I (complete_remediation env job r result owner)
  unfolding complete_remediation
  complete_remediation-Keeps job r result owner = search (plan_steps, holding-Keeps) depth 24

  pub process_claimed_remediation-Keeps :
      (job : DurableJob) (r : Remediation) (host : Host) (owner : String)
      → Keeps I (process_claimed_remediation env job r host owner)
  unfolding process_claimed_remediation
  process_claimed_remediation-Keeps job r host owner =
      search
        (
          plan_steps, holding-Keeps, begin_remediation-Keeps, check_drift-Keeps,
          require_eligible-Keeps, protect-Keeps, execute_change-Keeps, finish-Keeps,
          keep_result-Keeps, complete_remediation-Keeps,
        )
        depth 24
