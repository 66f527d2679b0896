-- ===== src/Models/Remediations.antt =====
-- Remediation plans, the decisions that they carry and the result of their execution (models.py).
use aisys_adm.Prelude.{ℕ, String, Bool, Option, List}
use aisys_adm.Models.Enums.{Severity, AgentName, ModelTier}
use aisys_adm.Models.Words.{
  ApprovalState, ExecutionState, ExecutionTiming, RebootStatus, DecisionStatus,
}
use aisys_adm.Models.Values.{ℤ, Datetime, Json, JsonDict}
use aisys_adm.Models.Hosts.{MaintenanceWindow}

pub record AgentIdentity : Type 0 where
  pub name : AgentName
  pub responsibility : String
  pub model_tier : ModelTier
  pub provider : String
  pub model : String
  pub selection_reason : String
  pub contract_version : ℕ
  pub contract_hash : String

pub record Evidence : Type 0 where
  pub source : String
  pub excerpt : String
  pub citation : String

pub record RebootAssessment : Type 0 where
  pub status : RebootStatus
  pub rationale : String
  pub evidence : List Evidence
  pub estimated_downtime_minutes : ℕ
  pub approved_if_required : Bool

pub record RolloutPolicy : Type 0 where
  pub strategy : String
  pub batch_size : ℕ
  pub canary_count : ℕ
  pub rationale : String

pub record FailurePolicy : Type 0 where
  pub stop_remaining_hosts : Bool
  pub notify_operator : Bool
  pub attempt_predefined_recovery : Bool
  pub recovery_actions : List String

pub record AiDecision : Type 0 where
  pub update_scope : String
  pub risk_level : Severity
  pub explanation : String
  pub status : DecisionStatus
  pub supporting_citations : List String
  pub unresolved_conflicts : List String
  pub agent_assignments : List AgentIdentity

pub record StructuredLogEvent : Type 0 where
  pub id : String
  pub schema_version : String
  pub timestamp : Datetime
  pub duration_ms : ℕ
  pub host_id : Option String
  pub job_id : Option String
  pub scan_id : Option String
  pub remediation_id : Option String
  pub agent_run_id : Option String
  pub playbook_id : Option String
  pub phase_id : Option String
  pub task_id : Option String
  pub event_type : String
  pub evidence_category : String
  pub severity : Severity
  pub status : String
  pub changed : Bool
  pub return_code : Option ℤ
  pub retry_count : ℕ
  pub failure_classification : Option String
  pub command_description : Option String
  pub before_value : Option Json
  pub after_value : Option Json
  pub stdout : String
  pub stderr : String
  pub raw_output : String
  pub source : String
  pub truncated : Bool
  pub original_bytes : ℕ
  pub redacted : Bool
  pub simulated : Bool
  pub externally_processed : Bool
  pub reboot_relevance : String
  pub remediation_relevance : String
  pub correlation_ids : List (String × String)

pub record ExecutionPhase : Type 0 where
  pub name : String
  pub state : String
  pub summary : String
  pub output : String
  pub changed : Bool

pub record ExecutionResult : Type 0 where
  pub success : Bool
  pub summary : String
  pub changed : Bool
  pub reboot_performed : Bool
  pub phases : List ExecutionPhase
  pub events : List StructuredLogEvent
  pub failure_actions_taken : List String

pub record Remediation : Type 0 where
  pub id : String
  pub host_id : String
  pub scan_id : Option String
  pub title : String
  pub action_type : String
  pub update_scope : String
  pub risk_level : Severity
  pub ai_decision : AiDecision
  pub reboot_assessment : RebootAssessment
  pub rollout_policy : RolloutPolicy
  pub failure_policy : FailurePolicy
  pub execution_timing : ExecutionTiming
  pub maintenance_window : Option MaintenanceWindow
  pub approval_scope : String
  pub approval_state : ApprovalState
  pub reboot_approval_state : ApprovalState
  pub execution_state : ExecutionState
  pub plan_version : ℕ
  pub plan_hash : String
  pub approved_by : Option String
  pub approved_at : Option Datetime
  pub approved_plan_version : Option ℕ
  pub approved_plan_hash : Option String
  pub reboot_approved_by : Option String
  pub reboot_approved_at : Option Datetime
  pub reboot_approved_plan_version : Option ℕ
  pub reboot_approved_plan_hash : Option String
  pub result : Option ExecutionResult
  pub pre_change_protection : JsonDict
  pub created_at : Datetime
  pub updated_at : Datetime

pub record ApprovalRequest : Type 0 where
  pub plan_version : ℕ
  pub plan_hash : String
  pub hostname_confirmation : String
