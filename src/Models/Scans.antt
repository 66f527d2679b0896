-- ===== src/Models/Scans.antt =====
-- Scans, what the agents of a scan say, and their findings (models.py).
use aisys_adm.Prelude.{ℕ, String, Bool, Option, List}
use aisys_adm.Models.Remediations.{AgentIdentity, Evidence}
use aisys_adm.Models.Enums.{AgentName, Severity}
use aisys_adm.Models.Values.{Datetime, Float, JsonDict}

pub record AgentMessage : Type 0 where
  pub id : String
  pub scan_id : String
  pub from_agent : AgentName
  pub to_agent : AgentName
  pub round : ℕ
  pub response : String
  pub claim_ids : List String
  pub reasoning : String
  pub citations : List String
  pub created_at : Datetime

pub record AgentRun : Type 0 where
  pub id : String
  pub scan_id : String
  pub agent : AgentIdentity
  pub status : String
  pub input_hash : String
  pub output : JsonDict
  pub prompt_tokens : ℕ
  pub completion_tokens : ℕ
  pub latency_ms : ℕ
  pub cache_hit : Bool
  pub fallback_reason : Option String
  pub externally_processed : Bool
  pub created_at : Datetime

pub record RecommendedAction : Type 0 where
  pub action_type : String
  pub title : String
  pub rationale : String

pub record Finding : Type 0 where
  pub id : String
  pub host_id : String
  pub scan_id : Option String
  pub source_agent : AgentName
  pub category : String
  pub severity : Severity
  pub summary : String
  pub explanation : String
  pub evidence : List Evidence
  pub recommended_action : Option RecommendedAction
  pub requires_approval : Bool
  pub confidence : Float
  pub status : String
  pub verifier_status : String
  pub verifier_reason : Option String
  pub created_at : Datetime

pub record AgentReport : Type 0 where
  pub agent : AgentIdentity
  pub overview : String
  pub findings : List Finding

pub record ScanRequest : Type 0 where
  pub host_id : String
  pub trigger : String
  pub idempotency_key : Option String

pub record ScanJob : Type 0 where
  pub id : String
  pub host_id : String
  pub durable_job_id : Option String
  pub snapshot_id : Option String
  pub trigger : String
  pub status : String
  pub finding_ids : List String
  pub remediation_ids : List String
  pub agent_run_ids : List String
  pub agent_reports : List AgentReport
  pub campaign_id : Option String
  pub error : Option String
  pub created_at : Datetime
  pub updated_at : Datetime
