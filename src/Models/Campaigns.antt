-- ===== src/Models/Campaigns.antt =====
-- Patch campaigns and the plan of each host in one (models.py).
use aisys_adm.Prelude.{ℕ, String, Option, List}
use aisys_adm.Models.Enums.{CampaignStatus, CampaignHostState}
use aisys_adm.Models.Words.{ApprovalState}
use aisys_adm.Models.Values.{Datetime}

pub record CampaignHostPlan : Type 0 where
  pub id : String
  pub campaign_id : String
  pub host_id : String
  pub hostname : String
  pub state : CampaignHostState
  pub scan_id : Option String
  pub remediation_id : Option String
  pub plan_version : Option ℕ
  pub plan_hash : Option String
  pub approval_state : ApprovalState
  pub reboot_approval_state : ApprovalState
  pub approved_plan_version : Option ℕ
  pub approved_plan_hash : Option String
  pub approved_by : Option String
  pub approved_at : Option Datetime
  pub reboot_approved_by : Option String
  pub reboot_approved_at : Option Datetime
  pub reboot_approved_plan_version : Option ℕ
  pub reboot_approved_plan_hash : Option String
  pub job_id : Option String
  pub failure_summary : Option String
  pub created_at : Datetime
  pub updated_at : Datetime

pub record PatchCampaign : Type 0 where
  pub id : String
  pub name : String
  pub host_ids : List String
  pub remediation_ids : List String
  pub hosts : List CampaignHostPlan
  pub status : CampaignStatus
  pub batch_size : ℕ
  pub current_batch : ℕ
  pub total_batches : ℕ
  pub failure_summary : Option String
  pub canceled_by : Option String
  pub canceled_at : Option Datetime
  pub created_at : Datetime
  pub updated_at : Datetime
