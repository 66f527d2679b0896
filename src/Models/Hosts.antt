-- ===== src/Models/Hosts.antt =====
-- Hosts, their patch policy and their maintenance window (models.py).
use aisys_adm.Prelude.{ℕ, String, Option, List}
use aisys_adm.Models.Enums.{SnapshotPlatform}
use aisys_adm.Models.Words.{ExecutionTiming, RebootPolicy}
use aisys_adm.Models.Values.{Datetime, JsonDict}

pub record MaintenanceWindow : Type 0 where
  pub timezone : String
  pub weekdays : List ℕ
  pub start_time : String
  pub duration_minutes : ℕ

pub record PatchPolicy : Type 0 where
  pub update_mode : String
  pub execution_timing : ExecutionTiming
  pub maintenance_window : Option MaintenanceWindow
  pub max_batch_size : ℕ
  pub canary_count : ℕ
  pub reboot_policy : RebootPolicy

pub record Host : Type 0 where
  pub name : String
  pub address : String
  pub port : ℕ
  pub username : String
  pub distro_family : String
  pub environment : String
  pub tags : List String
  pub criticality : String
  pub availability_class : String
  pub credential_id : Option String
  pub ssh_host_key_fingerprint : Option String
  pub snapshot_platform : SnapshotPlatform
  pub snapshot_credential_id : Option String
  pub snapshot_target_id : Option String
  pub snapshot_provider_metadata : JsonDict
  pub critical_service_name : Option String
  pub health_check_url : Option String
  pub snapshot_retention_days : ℕ
  pub patch_policy : PatchPolicy
  pub id : String
  pub connection_status : String
  pub created_at : Datetime
  pub updated_at : Datetime

pub record HostInput : Type 0 where
  pub name : String
  pub address : String
  pub port : ℕ
  pub username : String
  pub distro_family : String
  pub environment : String
  pub tags : List String
  pub criticality : String
  pub availability_class : String
  pub credential_id : Option String
  pub ssh_host_key_fingerprint : Option String
  pub snapshot_platform : SnapshotPlatform
  pub snapshot_credential_id : Option String
  pub snapshot_target_id : Option String
  pub snapshot_provider_metadata : JsonDict
  pub critical_service_name : Option String
  pub health_check_url : Option String
  pub snapshot_retention_days : ℕ
  pub patch_policy : PatchPolicy
