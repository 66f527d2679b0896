-- ===== src/Models/Jobs.antt =====
-- Durable jobs and their failures (models.py).
use aisys_adm.Prelude.{ℕ, String, Bool, Option}
use aisys_adm.Models.Words.{JobStatus, JobType, FailureCategory}
use aisys_adm.Models.Values.{Datetime, JsonDict}

pub record JobFailure : Type 0 where
  pub failed_at : Datetime
  pub attempt : ℕ
  pub category : FailureCategory
  pub message : String
  pub retryable : Bool

pub record DurableJob : Type 0 where
  pub id : String
  pub job_type : JobType
  pub status : JobStatus
  pub host_id : Option String
  pub scan_id : Option String
  pub remediation_id : Option String
  pub campaign_id : Option String
  pub approved_plan_version : Option ℕ
  pub approved_plan_hash : Option String
  pub approval_scope : Option String
  pub idempotency_key : String
  pub progress_percent : ℕ
  pub current_phase : Option String
  pub attempts : ℕ
  pub max_attempts : ℕ
  pub lease_owner : Option String
  pub lease_expires_at : Option Datetime
  pub heartbeat_at : Option Datetime
  pub last_failure : Option JobFailure
  pub error : Option String
  pub result : JsonDict
  pub created_at : Datetime
  pub started_at : Option Datetime
  pub completed_at : Option Datetime
  pub updated_at : Datetime
