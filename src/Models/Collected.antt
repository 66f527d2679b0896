-- ===== src/Models/Collected.antt =====
-- What a scan collects from a host (models.py).
use aisys_adm.Prelude.{String, List}
use aisys_adm.Models.Values.{Datetime, Float}
use aisys_adm.Models.Snapshots.{EvidenceState, HostLogs, PackageSummary, ServiceSummary}

pub record SystemSummary : Type 0 where
  pub uptime_hours : Float
  pub load_average : List Float
  pub disk_usage_percent : Float
  pub inode_usage_percent : Float
  pub memory_usage_percent : Float
  pub kernel_version : String
  pub boot_id : String

pub record NetworkSummary : Type 0 where
  pub interfaces : List String
  pub default_routes : List String
  pub dns_servers : List String
  pub listening_ports : List String

pub record HostSnapshot : Type 0 where
  pub id : String
  pub host_id : String
  pub collected_at : Datetime
  pub commands : List (String × String)
  pub evidence_states : List (String × EvidenceState)
  pub package_summary : PackageSummary
  pub service_summary : ServiceSummary
  pub system_summary : SystemSummary
  pub network_summary : NetworkSummary
  pub logs : HostLogs
  pub snapshot_hash : String
