-- ===== src/Gate/Eligibility/Conditions.antt =====
-- The conditions of an execution, stated without the order of the checks or their answers.
use aisys_adm.Prelude.{String, ◌≤◌, ◌≡◌, ◌≢◌, ◌⊎◌, true, false, Option, none, some}
use aisys_adm.Models.Enums.{SnapshotPlatform}
use aisys_adm.Models.Words.{ApprovalState, RebootStatus, RebootPolicy, DecisionStatus}
use aisys_adm.Models.Values.{has_text, nonempty}
use aisys_adm.Models.Hosts.{Host}
use aisys_adm.Models.Jobs.{DurableJob}
use aisys_adm.Models.Remediations.{Remediation}
use aisys_adm.Gate.Plan.{PlanPayload, plan_payload, expected_job_scope}
use aisys_adm.Gate.Execution.{protection_planned}

pub record IsCataloged (r : Remediation) : Type 0 where
  pub scope : r.approval_scope ≡ "patch_only"
  pub action : r.action_type ≡ "package_upgrade"
  pub updates : (r.update_scope ≡ "security") ⊎ (r.update_scope ≡ "all")

pub record HasEvidence (r : Remediation) : Type 0 where
  pub scan : has_text r.scan_id ≡ true
  pub ready : r.ai_decision.status ≡ DecisionStatus.plan_ready
  pub cited : nonempty r.ai_decision.supporting_citations ≡ true

-- A named person approved the reboot of this version of the plan, and the host allows reboots.
pub record RebootApproved (r : Remediation) (host : Host) : Type 0 where
  pub state : r.reboot_approval_state ≡ ApprovalState.approved
  pub approver : has_text r.reboot_approved_by ≡ true
  pub at : r.reboot_approved_at ≢ none
  pub version : r.reboot_approved_plan_version ≡ some r.plan_version
  pub hash : r.reboot_approved_plan_hash ≡ some r.plan_hash
  pub marked : r.reboot_assessment.approved_if_required ≡ true
  pub policy : host.patch_policy.reboot_policy ≡ RebootPolicy.if_required

-- A named person approved this version of the plan, its content is the one that was hashed, and
-- where a reboot cannot be excluded, the reboot was approved too.
pub record PlanApproved (hasher : PlanPayload → String) (r : Remediation) (host : Host)
    : Type 0 where
  pub host_bound : r.host_id ≡ host.id
  pub cataloged : IsCataloged r
  pub evidence : HasEvidence r
  pub hashed : r.plan_hash ≢ ""
  pub numbered : 1 ≤ r.plan_version
  pub content : r.plan_hash ≡ hasher (plan_payload r)
  pub state : r.approval_state ≡ ApprovalState.approved
  pub approver : has_text r.approved_by ≡ true
  pub at : r.approved_at ≢ none
  pub version : r.approved_plan_version ≡ some r.plan_version
  pub hash : r.approved_plan_hash ≡ some r.plan_hash
  pub reboot : (r.reboot_assessment.status ≡ RebootStatus.not_expected) ⊎ RebootApproved r host

-- A snapshot that the plan counts on can be taken, and one that a possible reboot needs too.
pub record SnapshotReady (r : Remediation) (host : Host) : Type 0 where
  pub planned : (protection_planned r ≡ false) ⊎ (host.snapshot_platform ≢ SnapshotPlatform.none)
  pub equipped :
      (r.reboot_assessment.status ≡ RebootStatus.not_expected)
      ⊎ ((host.snapshot_platform ≡ SnapshotPlatform.none)
          ⊎ ((has_text host.snapshot_credential_id ≡ true)
              × ((has_text host.snapshot_target_id ≡ true)
                  ⊎ (nonempty host.snapshot_provider_metadata ≡ true))))

-- The job was made for this remediation, host, scan, scope and version of the plan.
pub record JobBound (r : Remediation) (host : Host) (job : DurableJob) : Type 0 where
  pub remediation : job.remediation_id ≡ some r.id
  pub host_id : job.host_id ≡ some host.id
  pub scan : job.scan_id ≡ r.scan_id
  pub scope : job.approval_scope ≡ some (expected_job_scope r)
  pub version : job.approved_plan_version ≡ some r.plan_version
  pub hash : job.approved_plan_hash ≡ some r.plan_hash

abbrev pub AnyJobBound : Remediation → Host → Option DurableJob → Type 0
AnyJobBound r host none = Unit
AnyJobBound r host (some job) = JobBound r host job
