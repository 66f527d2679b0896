-- ===== src/Models/Enums.antt =====
-- The enumerations of models.py (apps/api/sysadmin_api/models.py). A `str` enumeration is a data
-- type with the source's members; members are compared by their number in the list.
use aisys_adm.Prelude.{ℕ, ◌≡◌, arith, Enum}

pub data Severity : Type 0 where
  info low medium high critical : Severity

pub data AgentName : Type 0 where
  orchestrator log_analyst linux_state_analyst : AgentName

pub data ModelTier : Type 0 where
  capable economy deterministic : ModelTier

pub data UserRole : Type 0 where
  admin operator auditor : UserRole

pub data CampaignStatus : Type 0 where
  draft proposing awaiting_approval ready running partially_succeeded succeeded failed cancelling
        canceled :
      CampaignStatus

pub data CampaignHostState : Type 0 where
  selected proposal_queued proposal_running awaiting_approval awaiting_reboot_approval approved
        scheduled queued running succeeded failed rejected blocked canceled no_action plan_changed :
      CampaignHostState

pub data CredentialType : Type 0 where
  ssh_private_key proxmox_token aws_access_key aws_role vmware_secret libvirt_ssh : CredentialType

pub data SnapshotPlatform : Type 0 where
  none proxmox aws vmware libvirt : SnapshotPlatform

pub data RollbackSnapshotState : Type 0 where
  creating created delete_scheduled deleted rollback_started rolled_back rollback_failed
        delete_failed :
      RollbackSnapshotState

abbrev pub severity_tag : Severity → ℕ
severity_tag Severity.info = 0
severity_tag Severity.low = 1
severity_tag Severity.medium = 2
severity_tag Severity.high = 3
severity_tag Severity.critical = 4

pub severity_tag_injective : (a b : Severity) → severity_tag a ≡ severity_tag b → a ≡ b
severity_tag_injective a b h = ground arith

instance abbrev pub severity_enum : Enum Severity
severity_enum = record { tag = severity_tag; tag_injective = severity_tag_injective }

abbrev pub agent_name_tag : AgentName → ℕ
agent_name_tag AgentName.orchestrator = 0
agent_name_tag AgentName.log_analyst = 1
agent_name_tag AgentName.linux_state_analyst = 2

pub agent_name_tag_injective : (a b : AgentName) → agent_name_tag a ≡ agent_name_tag b → a ≡ b
agent_name_tag_injective a b h = ground arith

instance abbrev pub agent_name_enum : Enum AgentName
agent_name_enum = record { tag = agent_name_tag; tag_injective = agent_name_tag_injective }

abbrev pub model_tier_tag : ModelTier → ℕ
model_tier_tag ModelTier.capable = 0
model_tier_tag ModelTier.economy = 1
model_tier_tag ModelTier.deterministic = 2

pub model_tier_tag_injective : (a b : ModelTier) → model_tier_tag a ≡ model_tier_tag b → a ≡ b
model_tier_tag_injective a b h = ground arith

instance abbrev pub model_tier_enum : Enum ModelTier
model_tier_enum = record { tag = model_tier_tag; tag_injective = model_tier_tag_injective }

abbrev pub user_role_tag : UserRole → ℕ
user_role_tag UserRole.admin = 0
user_role_tag UserRole.operator = 1
user_role_tag UserRole.auditor = 2

pub user_role_tag_injective : (a b : UserRole) → user_role_tag a ≡ user_role_tag b → a ≡ b
user_role_tag_injective a b h = ground arith

instance abbrev pub user_role_enum : Enum UserRole
user_role_enum = record { tag = user_role_tag; tag_injective = user_role_tag_injective }

abbrev pub campaign_status_tag : CampaignStatus → ℕ
campaign_status_tag CampaignStatus.draft = 0
campaign_status_tag CampaignStatus.proposing = 1
campaign_status_tag CampaignStatus.awaiting_approval = 2
campaign_status_tag CampaignStatus.ready = 3
campaign_status_tag CampaignStatus.running = 4
campaign_status_tag CampaignStatus.partially_succeeded = 5
campaign_status_tag CampaignStatus.succeeded = 6
campaign_status_tag CampaignStatus.failed = 7
campaign_status_tag CampaignStatus.cancelling = 8
campaign_status_tag CampaignStatus.canceled = 9

pub campaign_status_tag_injective :
    (a b : CampaignStatus) → campaign_status_tag a ≡ campaign_status_tag b → a ≡ b
campaign_status_tag_injective a b h = ground arith

instance abbrev pub campaign_status_enum : Enum CampaignStatus
campaign_status_enum = record {
  tag = campaign_status_tag;
  tag_injective = campaign_status_tag_injective;
}

abbrev pub campaign_host_state_tag : CampaignHostState → ℕ
campaign_host_state_tag CampaignHostState.selected = 0
campaign_host_state_tag CampaignHostState.proposal_queued = 1
campaign_host_state_tag CampaignHostState.proposal_running = 2
campaign_host_state_tag CampaignHostState.awaiting_approval = 3
campaign_host_state_tag CampaignHostState.awaiting_reboot_approval = 4
campaign_host_state_tag CampaignHostState.approved = 5
campaign_host_state_tag CampaignHostState.scheduled = 6
campaign_host_state_tag CampaignHostState.queued = 7
campaign_host_state_tag CampaignHostState.running = 8
campaign_host_state_tag CampaignHostState.succeeded = 9
campaign_host_state_tag CampaignHostState.failed = 10
campaign_host_state_tag CampaignHostState.rejected = 11
campaign_host_state_tag CampaignHostState.blocked = 12
campaign_host_state_tag CampaignHostState.canceled = 13
campaign_host_state_tag CampaignHostState.no_action = 14
campaign_host_state_tag CampaignHostState.plan_changed = 15

pub campaign_host_state_tag_injective :
    (a b : CampaignHostState) → campaign_host_state_tag a ≡ campaign_host_state_tag b → a ≡ b
campaign_host_state_tag_injective a b h = ground arith

instance abbrev pub campaign_host_state_enum : Enum CampaignHostState
campaign_host_state_enum = record {
  tag = campaign_host_state_tag;
  tag_injective = campaign_host_state_tag_injective;
}

abbrev pub credential_type_tag : CredentialType → ℕ
credential_type_tag CredentialType.ssh_private_key = 0
credential_type_tag CredentialType.proxmox_token = 1
credential_type_tag CredentialType.aws_access_key = 2
credential_type_tag CredentialType.aws_role = 3
credential_type_tag CredentialType.vmware_secret = 4
credential_type_tag CredentialType.libvirt_ssh = 5

pub credential_type_tag_injective :
    (a b : CredentialType) → credential_type_tag a ≡ credential_type_tag b → a ≡ b
credential_type_tag_injective a b h = ground arith

instance abbrev pub credential_type_enum : Enum CredentialType
credential_type_enum = record {
  tag = credential_type_tag;
  tag_injective = credential_type_tag_injective;
}

abbrev pub snapshot_platform_tag : SnapshotPlatform → ℕ
snapshot_platform_tag SnapshotPlatform.none = 0
snapshot_platform_tag SnapshotPlatform.proxmox = 1
snapshot_platform_tag SnapshotPlatform.aws = 2
snapshot_platform_tag SnapshotPlatform.vmware = 3
snapshot_platform_tag SnapshotPlatform.libvirt = 4

pub snapshot_platform_tag_injective :
    (a b : SnapshotPlatform) → snapshot_platform_tag a ≡ snapshot_platform_tag b → a ≡ b
snapshot_platform_tag_injective a b h = ground arith

instance abbrev pub snapshot_platform_enum : Enum SnapshotPlatform
snapshot_platform_enum = record {
  tag = snapshot_platform_tag;
  tag_injective = snapshot_platform_tag_injective;
}

abbrev pub rollback_snapshot_state_tag : RollbackSnapshotState → ℕ
rollback_snapshot_state_tag RollbackSnapshotState.creating = 0
rollback_snapshot_state_tag RollbackSnapshotState.created = 1
rollback_snapshot_state_tag RollbackSnapshotState.delete_scheduled = 2
rollback_snapshot_state_tag RollbackSnapshotState.deleted = 3
rollback_snapshot_state_tag RollbackSnapshotState.rollback_started = 4
rollback_snapshot_state_tag RollbackSnapshotState.rolled_back = 5
rollback_snapshot_state_tag RollbackSnapshotState.rollback_failed = 6
rollback_snapshot_state_tag RollbackSnapshotState.delete_failed = 7

pub rollback_snapshot_state_tag_injective :
    (a b : RollbackSnapshotState)
    → rollback_snapshot_state_tag a ≡ rollback_snapshot_state_tag b
    → a ≡ b
rollback_snapshot_state_tag_injective a b h = ground arith

instance abbrev pub rollback_snapshot_state_enum : Enum RollbackSnapshotState
rollback_snapshot_state_enum = record {
  tag = rollback_snapshot_state_tag;
  tag_injective = rollback_snapshot_state_tag_injective;
}
