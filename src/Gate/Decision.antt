-- ===== src/Gate/Decision.antt =====
-- Gate codes, their texts and the decisions built from them (trusted_change.py).
use aisys_adm.Prelude.{String, Bool, true, false, Option, none, some, text_or}
use aisys_adm.Models.Words.{FailureCategory}

pub data GateCode : Type 0 where
  allowed plan_not_pending plan_not_approved plan_content_changed plan_version_changed : GateCode
  plan_hash_changed plan_binding_changed plan_metadata_incomplete host_binding_invalid : GateCode
  hostname_mismatch evidence_incomplete action_not_cataloged update_scope_not_cataloged : GateCode
  approval_scope_invalid approval_metadata_incomplete reboot_not_required : GateCode
  reboot_approval_missing reboot_approval_incomplete reboot_policy_denied : GateCode
  host_state_drift active_rollback_failure duplicate_execution maintenance_window_closed : GateCode
  campaign_state_invalid campaign_batch_in_progress campaign_plan_changed : GateCode
  campaign_no_approved_hosts snapshot_configuration_incomplete snapshot_create_failed : GateCode
  health_check_failed rollback_required rollback_succeeded rollback_failed : GateCode
  execution_failed execution_changed_failed stale_execution_uncertain : GateCode

-- The table `_REASONS`. It has no entry for `allowed`, with which no denial is built.
unfoldable pub reasons : GateCode → String
reasons GateCode.allowed = ""
reasons GateCode.plan_not_pending = "Only pending remediations can be approved"
reasons GateCode.plan_not_approved = "Execution blocked because the remediation is not approved"
reasons GateCode.plan_content_changed = "Remediation content changed from the approved plan"
reasons GateCode.plan_version_changed = "Remediation plan version changed after approval"
reasons GateCode.plan_hash_changed = "Remediation plan hash changed after approval"
reasons GateCode.plan_binding_changed =
    "Remediation plan approval no longer matches the current plan"
reasons GateCode.plan_metadata_incomplete = "Remediation plan metadata is incomplete"
reasons GateCode.host_binding_invalid = "Remediation host binding is invalid"
reasons GateCode.hostname_mismatch = "Typed hostname confirmation does not match"
reasons GateCode.evidence_incomplete = "Approved remediation evidence is incomplete"
reasons GateCode.action_not_cataloged =
    "Execution blocked because the remediation action type is not cataloged"
reasons GateCode.update_scope_not_cataloged =
    "Execution blocked because the remediation update scope is not cataloged"
reasons GateCode.approval_scope_invalid = "Execution blocked because the approval scope is invalid"
reasons GateCode.approval_metadata_incomplete = "Remediation approval metadata is incomplete"
reasons GateCode.reboot_not_required = "This remediation does not require reboot approval"
reasons GateCode.reboot_approval_missing = "Remediation execution requires separate reboot approval"
reasons GateCode.reboot_approval_incomplete = "Remediation reboot approval metadata is incomplete"
reasons GateCode.reboot_policy_denied = "Host policy forbids reboot risk that cannot be excluded"
reasons GateCode.host_state_drift = "Host package, service, or reboot state changed after approval"
reasons GateCode.active_rollback_failure =
    "Host has an unresolved rollback failure alert and cannot execute remediations"
reasons GateCode.duplicate_execution = "This exact remediation plan already has an execution job"
reasons GateCode.maintenance_window_closed = "Remediation is waiting for its maintenance window"
reasons GateCode.campaign_state_invalid = "Campaign cannot execute in its current state"
reasons GateCode.campaign_batch_in_progress =
    "Campaign current batch must finish before another batch can start"
reasons GateCode.campaign_plan_changed = "The campaign host plan changed and must be reviewed again"
reasons GateCode.campaign_no_approved_hosts = "Campaign has no approved host plans ready to execute"
reasons GateCode.snapshot_configuration_incomplete =
    "Required snapshot protection is incompletely configured"
reasons GateCode.snapshot_create_failed = "Snapshot creation failed before package changes"
reasons GateCode.health_check_failed = "Post-change health checks failed"
reasons GateCode.rollback_required = "Post-change health checks failed and rollback is required"
reasons GateCode.rollback_succeeded =
    "Post-reboot health checks failed; snapshot rollback completed and human intervention is required."
reasons GateCode.rollback_failed =
    "Post-reboot health checks failed and snapshot rollback failed; human intervention is required."
reasons GateCode.execution_failed = "Remediation execution failed"
reasons GateCode.execution_changed_failed = "Remediation failed after changing host state"
reasons GateCode.stale_execution_uncertain =
    "Worker lease expired after mutation may have started; automatic retry is blocked"

pub record GateDecision : Type 0 where
  pub allowed : Bool
  pub code : GateCode
  pub message : String
  pub category : FailureCategory
  pub retryable : Bool

unfoldable pub allow : GateDecision
allow = record {
  allowed = true;
  code = GateCode.allowed;
  message = "";
  category = FailureCategory.safety_validation;
  retryable = false;
}

-- GateDecision.deny(code, message=, category=, retryable=)
unfoldable pub deny : GateCode → Option String → FailureCategory → Bool → GateDecision
deny code message category retryable = record {
  allowed = false;
  code = code;
  message = text_or message (reasons code);
  category = category;
  retryable = retryable;
}

-- The calls with the default category, and with category="approval_validation".
abbrev pub deny_safety : GateCode → GateDecision
deny_safety code = deny code none FailureCategory.safety_validation false

abbrev pub deny_approval : GateCode → GateDecision
deny_approval code = deny code none FailureCategory.approval_validation false

abbrev pub deny_approval_saying : GateCode → String → GateDecision
deny_approval_saying code message =
    deny code (some message) FailureCategory.approval_validation false
