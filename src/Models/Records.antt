-- ===== src/Models/Records.antt =====
-- Schedules, credentials, alerts, audit events and the answers of the snapshot providers (models.py).
use aisys_adm.Prelude.{String, Bool, Option, List}
use aisys_adm.Models.Enums.{CredentialType, Severity}
use aisys_adm.Models.Values.{Datetime, JsonDict}
use aisys_adm.Models.Remediations.{StructuredLogEvent}

pub record HostScheduleInput : Type 0 where
  pub enabled : Bool
  pub timezone : String
  pub cron_expression : String
  pub overlap_policy : String

pub record HostSchedule : Type 0 where
  pub enabled : Bool
  pub timezone : String
  pub cron_expression : String
  pub overlap_policy : String
  pub id : String
  pub host_id : String
  pub previous_run_at : Option Datetime
  pub next_run_at : Option Datetime
  pub created_at : Datetime
  pub updated_at : Datetime

pub record SshCredential : Type 0 where
  pub id : String
  pub name : String
  pub credential_type : CredentialType
  pub fingerprint : String
  pub metadata : JsonDict
  pub created_at : Datetime
  pub last_used_at : Option Datetime

pub record ConnectionTestResult : Type 0 where
  pub success : Bool
  pub ssh_reachable : Bool
  pub sudo_available : Bool
  pub os_supported : Bool
  pub ansible_compatible : Bool
  pub host_key_fingerprint : Option String
  pub checks : List (String × String)

pub record SnapshotOperationResult : Type 0 where
  pub success : Bool
  pub external_snapshot_id : Option String
  pub summary : String
  pub events : List StructuredLogEvent

pub record SnapshotHealthResult : Type 0 where
  pub healthy : Bool
  pub summary : String
  pub checks : List (String × String)
  pub events : List StructuredLogEvent

pub record CampaignRequest : Type 0 where
  pub name : String
  pub host_ids : List String

pub record Alert : Type 0 where
  pub id : String
  pub severity : Severity
  pub title : String
  pub message : String
  pub host_id : Option String
  pub job_id : Option String
  pub acknowledged : Bool
  pub acknowledged_at : Option Datetime
  pub created_at : Datetime

pub record AuditEvent : Type 0 where
  pub id : String
  pub actor : String
  pub action : String
  pub target_type : String
  pub target_id : Option String
  pub details : JsonDict
  pub created_at : Datetime
