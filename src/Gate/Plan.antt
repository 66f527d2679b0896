-- ===== src/Gate/Plan.antt =====
-- What a plan hash covers: `_plan_payload` of trusted_change.py. The hash itself, SHA-256 of the
-- JSON text, is a parameter of the gate, a function from payloads to texts.
use aisys_adm.Prelude.{ℕ, String, Bool, not, Option, List, ◌is◌, if◌then◌else◌}
use aisys_adm.Models.Enums.{Severity}
use aisys_adm.Models.Words.{ExecutionTiming, RebootStatus, reboot_status_enum}
use aisys_adm.Models.Values.{JsonDict}
use aisys_adm.Models.Hosts.{MaintenanceWindow}
use aisys_adm.Models.Remediations.{
  Remediation, AiDecision, Evidence, RolloutPolicy, FailurePolicy, RebootAssessment,
}

-- The reboot assessment without `approved_if_required`.
pub record RebootPayload : Type 0 where
  pub status : RebootStatus
  pub rationale : String
  pub evidence : List Evidence
  pub estimated_downtime_minutes : ℕ

pub record PlanPayload : Type 0 where
  pub plan_version : ℕ
  pub host_id : String
  pub scan_id : Option String
  pub action_type : String
  pub update_scope : String
  pub risk_level : Severity
  pub decision : AiDecision
  pub reboot : RebootPayload
  pub rollout : RolloutPolicy
  pub failure_policy : FailurePolicy
  pub timing : ExecutionTiming
  pub maintenance_window : Option MaintenanceWindow
  pub approval_scope : String
  pub pre_change_protection : JsonDict

unfoldable pub plan_payload : Remediation → PlanPayload
plan_payload r = record {
  plan_version = r.plan_version;
  host_id = r.host_id;
  scan_id = r.scan_id;
  action_type = r.action_type;
  update_scope = r.update_scope;
  risk_level = r.risk_level;
  decision = r.ai_decision;
  reboot = record {
    status = r.reboot_assessment.status;
    rationale = r.reboot_assessment.rationale;
    evidence = r.reboot_assessment.evidence;
    estimated_downtime_minutes = r.reboot_assessment.estimated_downtime_minutes;
  };
  rollout = r.rollout_policy;
  failure_policy = r.failure_policy;
  timing = r.execution_timing;
  maintenance_window = r.maintenance_window;
  approval_scope = r.approval_scope;
  pre_change_protection = r.pre_change_protection;
}

unfoldable pub reboot_risk : Remediation → Bool
reboot_risk r = not (r.reboot_assessment.status is RebootStatus.not_expected)

unfoldable pub expected_job_scope : Remediation → String
expected_job_scope r = if reboot_risk r then "patch_and_reboot_if_required" else "patch_only"

unfoldable pub set_reboot_approved : Bool → RebootAssessment → RebootAssessment
set_reboot_approved b a = record a { approved_if_required = b }

module _ (hash : PlanPayload → String) where
  unfoldable pub plan_hash : Remediation → String
  plan_hash r = hash (plan_payload r)
