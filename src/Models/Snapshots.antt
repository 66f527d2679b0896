-- ===== src/Models/Snapshots.antt =====
-- The parts of a snapshot that a scan collects from a host, and the rollback snapshots (models.py).
use aisys_adm.Prelude.{ℕ, String, Bool, Option, List}
use aisys_adm.Models.Enums.{SnapshotPlatform, RollbackSnapshotState}
use aisys_adm.Models.Values.{Datetime}

pub record EvidenceState : Type 0 where
  pub status : String
  pub original_bytes : ℕ
  pub retained_bytes : ℕ
  pub truncated : Bool
  pub reason : Option String

pub record PackageUpdate : Type 0 where
  pub name : String
  pub current_version : Option String
  pub candidate_version : String
  pub security_update : Bool
  pub reboot_hint : Bool

pub record PackageSummary : Type 0 where
  pub pending_security_updates : ℕ
  pub pending_package_updates : ℕ
  pub reboot_required_now : Bool
  pub held_packages : List String
  pub updates : List PackageUpdate

pub record ServiceSummary : Type 0 where
  pub failed_units : List String
  pub restarting_units : List String
  pub degraded : Bool

pub record HostLogs : Type 0 where
  pub journal : String
  pub kernel : String
  pub auth : String
  pub apt_history : String
  pub reboot_history : String

pub record RollbackSnapshot : Type 0 where
  pub id : String
  pub host_id : String
  pub remediation_id : String
  pub provider : SnapshotPlatform
  pub external_snapshot_id : Option String
  pub state : RollbackSnapshotState
  pub delete_after : Option Datetime
  pub created_at : Datetime
  pub updated_at : Datetime
  pub failure_summary : Option String
  pub health_check_result : List (String × String)
