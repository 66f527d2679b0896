-- ===== src/Gate/Outcome.antt =====
-- What follows an execution: `snapshot_creation`, `post_change_health`, `rollback_result`,
-- `execution_outcome`, `failure_category`, `failure_is_non_retryable` and `stale_recovery`
-- (trusted_change.py). `lower` is Python's `str.lower`, a parameter, and so is `show`, Python's
-- `str` on a value that is not a text.
use Prim.Native.String.{◌++◌ as append}
use text.Mathlib.Text.{find?}
use aisys_adm.Prelude.{
  String, Bool, true, false, not, ◌||◌, Option, none, some, List, [], ◌∷◌, ◌is◌, ◌is_in◌, mem_text,
  text_or, if◌then◌else◌,
}
use aisys_adm.Models.Enums.{RollbackSnapshotState, rollback_snapshot_state_enum}
use aisys_adm.Models.Words.{JobStatus, ExecutionState, FailureCategory}
use aisys_adm.Models.Values.{Json, get, truthy, is_some}
use aisys_adm.Models.Jobs.{DurableJob}
use aisys_adm.Models.Remediations.{ExecutionResult}
use aisys_adm.Gate.Decision.{GateCode, GateDecision, allow, deny, deny_safety, reasons}

pub data PostChangeAction : Type 0 where
  complete rollback : PostChangeAction

pub record PostChangeDecision : Type 0 where
  pub decision : GateDecision
  pub action : PostChangeAction
  pub snapshot_state : RollbackSnapshotState

pub record RollbackDecision : Type 0 where
  pub decision : GateDecision
  pub snapshot_state : RollbackSnapshotState
  pub remediation_state : ExecutionState
  pub summary : String

pub record ExecutionOutcome : Type 0 where
  pub decision : GateDecision
  pub remediation_state : ExecutionState
  pub job_status : JobStatus
  pub stop_remaining_hosts : Bool

pub record RecoveryDecision : Type 0 where
  pub decision : GateDecision
  pub remediation_state : ExecutionState
  pub dispatch : Bool

unfoldable pub snapshot_creation : Bool → String → GateDecision
snapshot_creation success summary =
    if success
    then allow
    else deny GateCode.snapshot_create_failed
        (some (append "Snapshot creation failed before package changes: " summary))
        FailureCategory.safety_validation false

unfoldable pub post_change_health : Bool → PostChangeDecision
post_change_health healthy =
    if healthy
    then record {
      decision = allow;
      action = PostChangeAction.complete;
      snapshot_state = RollbackSnapshotState.delete_scheduled;
    }
    else record {
      decision = deny_safety GateCode.rollback_required;
      action = PostChangeAction.rollback;
      snapshot_state = RollbackSnapshotState.rollback_started;
    }

unfoldable pub rollback_result : Bool → RollbackDecision
rollback_result success =
    if success
    then record {
      decision = deny_safety GateCode.rollback_succeeded;
      snapshot_state = RollbackSnapshotState.rolled_back;
      remediation_state = ExecutionState.blocked;
      summary = reasons GateCode.rollback_succeeded;
    }
    else record {
      decision = deny_safety GateCode.rollback_failed;
      snapshot_state = RollbackSnapshotState.rollback_failed;
      remediation_state = ExecutionState.blocked;
      summary = reasons GateCode.rollback_failed;
    }

-- any(marker in text for marker in markers)
abbrev pub contains_any : String → List String → Bool
contains_any text [] = false
contains_any text (marker ∷ markers) = is_some (find? text marker) || contains_any text markers

-- snapshot_state in (CREATED, ROLLBACK_STARTED, ROLLED_BACK, ROLLBACK_FAILED)
abbrev pub under_snapshot : Option RollbackSnapshotState → Bool
under_snapshot none = false
under_snapshot (some state) = state is_in (
    RollbackSnapshotState.created ∷ RollbackSnapshotState.rollback_started
    ∷ RollbackSnapshotState.rolled_back ∷ RollbackSnapshotState.rollback_failed ∷ [])

abbrev pub state_is : Option RollbackSnapshotState → RollbackSnapshotState → Bool
state_is none s = false
state_is (some state) s = state is s

module _ (lower : String → String) where
  unfoldable pub failure_category : String → FailureCategory
  failure_category summary =
      let lowered = lower summary in
      if contains_any lowered ("approv" ∷ "plan" ∷ [])
      then FailureCategory.approval_validation
      else if contains_any lowered (
          "host key" ∷ "blocked" ∷ "snapshot" ∷ "rollback" ∷ "health check" ∷ "human intervention"
          ∷ [])
      then FailureCategory.safety_validation
      else FailureCategory.remediation_execution

  unfoldable pub failure_is_non_retryable : String → Bool
  failure_is_non_retryable summary = contains_any (lower summary) (
      "approval" ∷ "approved" ∷ "plan changed" ∷ "host key" ∷ "execution blocked" ∷ "reboot scope"
      ∷ "policy forbids" ∷ "snapshot" ∷ "rollback" ∷ "health check" ∷ "human intervention" ∷ [])

  unfoldable pub execution_outcome :
      ExecutionResult → Option RollbackSnapshotState → ExecutionOutcome
  execution_outcome result snapshot_state =
      let code =
        if state_is snapshot_state RollbackSnapshotState.rollback_failed
        then GateCode.rollback_failed
        else if state_is snapshot_state RollbackSnapshotState.rolled_back
        then GateCode.rollback_succeeded
        else GateCode.execution_changed_failed in
      let retryable = not (failure_is_non_retryable result.summary) in
      if result.success
      then record {
        decision = allow;
        remediation_state = ExecutionState.succeeded;
        job_status = JobStatus.completed;
        stop_remaining_hosts = false;
      }
      else if under_snapshot snapshot_state
      then record {
        decision = deny code (some result.summary) FailureCategory.safety_validation false;
        remediation_state = ExecutionState.blocked;
        job_status = JobStatus.failed;
        stop_remaining_hosts = true;
      }
      else if result.changed
      then record {
        decision =
            deny GateCode.execution_changed_failed (some result.summary)
              (failure_category result.summary) false;
        remediation_state = ExecutionState.failed;
        job_status = JobStatus.failed;
        stop_remaining_hosts = true;
      }
      else record {
        decision =
            deny GateCode.execution_failed (some result.summary) (failure_category result.summary)
              retryable;
        remediation_state = if retryable then ExecutionState.queued else ExecutionState.failed;
        job_status = if retryable then JobStatus.queued else JobStatus.failed;
        stop_remaining_hosts = not retryable;
      }

-- The phases from which the host may have been changed.
abbrev pub mutating_phases : List String
mutating_phases =
    "snapshot_create" ∷ "ansible_execution" ∷ "post_reboot_health_check" ∷ "snapshot_rollback" ∷ []

module _ (show : Json → String) where
  -- str(value)
  unfoldable pub str : Json → String
  str (Json.text s) = s
  str v = show v

  -- str(first or second or "")
  unfoldable pub phase_text : Option Json → Option String → String
  unfolding str
  phase_text none second = text_or second ""
  phase_text (some first) second = if truthy first then str first else text_or second ""

  unfoldable pub recovered_phase : DurableJob → String
  recovered_phase job = phase_text (get job.result "recovered_from_phase") job.current_phase

  unfoldable pub stale_recovery : DurableJob → Bool → RecoveryDecision
  stale_recovery job exhausted =
      if mem_text (recovered_phase job) mutating_phases
      then record {
        decision = deny_safety GateCode.stale_execution_uncertain;
        remediation_state = ExecutionState.blocked;
        dispatch = false;
      }
      else if exhausted
      then record {
        decision =
            deny GateCode.execution_failed
              (some (text_or job.error "Job retry attempts were exhausted"))
              FailureCategory.worker_lease_expired false;
        remediation_state = ExecutionState.failed;
        dispatch = false;
      }
      else record { decision = allow; remediation_state = ExecutionState.queued; dispatch = true }
