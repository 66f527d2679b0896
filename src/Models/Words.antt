-- ===== src/Models/Words.antt =====
-- The `str` fields of models.py (apps/api/sysadmin_api/models.py) that hold one of a few fixed
-- words: those of a `pattern` on the field, or else all those that the program writes to it.
use aisys_adm.Prelude.{ℕ, ◌≡◌, arith, Enum}

pub data JobStatus : Type 0 where
  scheduled queued running completed failed canceled : JobStatus

pub data JobType : Type 0 where
  scan remediation snapshot_delete : JobType

pub data ApprovalState : Type 0 where
  pending approved rejected manual_review blocked not_required : ApprovalState

pub data ExecutionState : Type 0 where
  not_started queued waiting_for_window running succeeded failed blocked canceled : ExecutionState

pub data RebootStatus : Type 0 where
  required likely required_after_patch not_expected unknown : RebootStatus

pub data RebootPolicy : Type 0 where
  if_required never : RebootPolicy

pub data ExecutionTiming : Type 0 where
  immediate maintenance_window : ExecutionTiming

pub data DecisionStatus : Type 0 where
  plan_ready insufficient_evidence : DecisionStatus

pub data FailureCategory : Type 0 where
  safety_validation approval_validation scheduling remediation_execution scan_execution
        snapshot_delete job_execution worker_lease_expired :
      FailureCategory

abbrev pub job_status_tag : JobStatus → ℕ
job_status_tag JobStatus.scheduled = 0
job_status_tag JobStatus.queued = 1
job_status_tag JobStatus.running = 2
job_status_tag JobStatus.completed = 3
job_status_tag JobStatus.failed = 4
job_status_tag JobStatus.canceled = 5

pub job_status_tag_injective : (a b : JobStatus) → job_status_tag a ≡ job_status_tag b → a ≡ b
job_status_tag_injective a b h = ground arith

instance abbrev pub job_status_enum : Enum JobStatus
job_status_enum = record { tag = job_status_tag; tag_injective = job_status_tag_injective }

abbrev pub job_type_tag : JobType → ℕ
job_type_tag JobType.scan = 0
job_type_tag JobType.remediation = 1
job_type_tag JobType.snapshot_delete = 2

pub job_type_tag_injective : (a b : JobType) → job_type_tag a ≡ job_type_tag b → a ≡ b
job_type_tag_injective a b h = ground arith

instance abbrev pub job_type_enum : Enum JobType
job_type_enum = record { tag = job_type_tag; tag_injective = job_type_tag_injective }

abbrev pub approval_state_tag : ApprovalState → ℕ
approval_state_tag ApprovalState.pending = 0
approval_state_tag ApprovalState.approved = 1
approval_state_tag ApprovalState.rejected = 2
approval_state_tag ApprovalState.manual_review = 3
approval_state_tag ApprovalState.blocked = 4
approval_state_tag ApprovalState.not_required = 5

pub approval_state_tag_injective :
    (a b : ApprovalState) → approval_state_tag a ≡ approval_state_tag b → a ≡ b
approval_state_tag_injective a b h = ground arith

instance abbrev pub approval_state_enum : Enum ApprovalState
approval_state_enum = record {
  tag = approval_state_tag;
  tag_injective = approval_state_tag_injective;
}

abbrev pub execution_state_tag : ExecutionState → ℕ
execution_state_tag ExecutionState.not_started = 0
execution_state_tag ExecutionState.queued = 1
execution_state_tag ExecutionState.waiting_for_window = 2
execution_state_tag ExecutionState.running = 3
execution_state_tag ExecutionState.succeeded = 4
execution_state_tag ExecutionState.failed = 5
execution_state_tag ExecutionState.blocked = 6
execution_state_tag ExecutionState.canceled = 7

pub execution_state_tag_injective :
    (a b : ExecutionState) → execution_state_tag a ≡ execution_state_tag b → a ≡ b
execution_state_tag_injective a b h = ground arith

instance abbrev pub execution_state_enum : Enum ExecutionState
execution_state_enum = record {
  tag = execution_state_tag;
  tag_injective = execution_state_tag_injective;
}

abbrev pub reboot_status_tag : RebootStatus → ℕ
reboot_status_tag RebootStatus.required = 0
reboot_status_tag RebootStatus.likely = 1
reboot_status_tag RebootStatus.required_after_patch = 2
reboot_status_tag RebootStatus.not_expected = 3
reboot_status_tag RebootStatus.unknown = 4

pub reboot_status_tag_injective :
    (a b : RebootStatus) → reboot_status_tag a ≡ reboot_status_tag b → a ≡ b
reboot_status_tag_injective a b h = ground arith

instance abbrev pub reboot_status_enum : Enum RebootStatus
reboot_status_enum = record { tag = reboot_status_tag; tag_injective = reboot_status_tag_injective }

abbrev pub reboot_policy_tag : RebootPolicy → ℕ
reboot_policy_tag RebootPolicy.if_required = 0
reboot_policy_tag RebootPolicy.never = 1

pub reboot_policy_tag_injective :
    (a b : RebootPolicy) → reboot_policy_tag a ≡ reboot_policy_tag b → a ≡ b
reboot_policy_tag_injective a b h = ground arith

instance abbrev pub reboot_policy_enum : Enum RebootPolicy
reboot_policy_enum = record { tag = reboot_policy_tag; tag_injective = reboot_policy_tag_injective }

abbrev pub execution_timing_tag : ExecutionTiming → ℕ
execution_timing_tag ExecutionTiming.immediate = 0
execution_timing_tag ExecutionTiming.maintenance_window = 1

pub execution_timing_tag_injective :
    (a b : ExecutionTiming) → execution_timing_tag a ≡ execution_timing_tag b → a ≡ b
execution_timing_tag_injective a b h = ground arith

instance abbrev pub execution_timing_enum : Enum ExecutionTiming
execution_timing_enum = record {
  tag = execution_timing_tag;
  tag_injective = execution_timing_tag_injective;
}

abbrev pub decision_status_tag : DecisionStatus → ℕ
decision_status_tag DecisionStatus.plan_ready = 0
decision_status_tag DecisionStatus.insufficient_evidence = 1

pub decision_status_tag_injective :
    (a b : DecisionStatus) → decision_status_tag a ≡ decision_status_tag b → a ≡ b
decision_status_tag_injective a b h = ground arith

instance abbrev pub decision_status_enum : Enum DecisionStatus
decision_status_enum = record {
  tag = decision_status_tag;
  tag_injective = decision_status_tag_injective;
}

abbrev pub failure_category_tag : FailureCategory → ℕ
failure_category_tag FailureCategory.safety_validation = 0
failure_category_tag FailureCategory.approval_validation = 1
failure_category_tag FailureCategory.scheduling = 2
failure_category_tag FailureCategory.remediation_execution = 3
failure_category_tag FailureCategory.scan_execution = 4
failure_category_tag FailureCategory.snapshot_delete = 5
failure_category_tag FailureCategory.job_execution = 6
failure_category_tag FailureCategory.worker_lease_expired = 7

pub failure_category_tag_injective :
    (a b : FailureCategory) → failure_category_tag a ≡ failure_category_tag b → a ≡ b
failure_category_tag_injective a b h = ground arith

instance abbrev pub failure_category_enum : Enum FailureCategory
failure_category_enum = record {
  tag = failure_category_tag;
  tag_injective = failure_category_tag_injective;
}
