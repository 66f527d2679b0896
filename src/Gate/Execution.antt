-- ===== src/Gate/Execution.antt =====
-- Whether a plan may run: `snapshot_requirement`, `execution_eligibility`,
-- `reboot_execution_eligibility` and `duplicate_execution` (trusted_change.py).
use aisys_adm.Prelude.{
  String, Bool, true, false, not, ◌==◌, ◌&&◌, ◌||◌, Option, none, some, ◌is◌, same_text, same_num,
  if◌then◌else◌,
}
use aisys_adm.Models.Enums.{SnapshotPlatform, snapshot_platform_enum}
use aisys_adm.Models.Values.{Json, get, truthy?, has_text, nonempty}
use aisys_adm.Models.Hosts.{Host}
use aisys_adm.Models.Jobs.{DurableJob}
use aisys_adm.Models.Remediations.{Remediation}
use aisys_adm.Gate.Decision.{
  GateCode, GateDecision, allow, deny_safety, deny_approval, deny_approval_saying,
}
use aisys_adm.Gate.Plan.{PlanPayload, reboot_risk, expected_job_scope}
use aisys_adm.Gate.Approval.{approval_decision}

pub record SnapshotDecision : Type 0 where
  pub decision : GateDecision
  pub required : Bool

abbrev is_text : Option Json → String → Bool
is_text (some (Json.text s)) t = s == t
is_text _ t = false

-- `planned` and `configured` of `snapshot_requirement`
unfoldable pub protection_planned : Remediation → Bool
protection_planned r =
    truthy? (get r.pre_change_protection "supported")
    || is_text (get r.pre_change_protection "status") "configured"

unfoldable pub protection_configured : Host → Bool
protection_configured host = not (host.snapshot_platform is SnapshotPlatform.none)

unfoldable pub snapshot_requirement : Host → Remediation → SnapshotDecision
snapshot_requirement host r =
    let planned = protection_planned r in
    let configured = protection_configured host in
    if planned && not configured
    then record {
      decision = deny_safety GateCode.snapshot_configuration_incomplete;
      required = true;
    }
    else if not (reboot_risk r) || not (planned || configured)
    then record { decision = allow; required = false }
    else if not (has_text host.snapshot_credential_id)
        || not (has_text host.snapshot_target_id || nonempty host.snapshot_provider_metadata)
    then record {
      decision = deny_safety GateCode.snapshot_configuration_incomplete;
      required = true;
    }
    else record { decision = allow; required = true }

-- The checks of `execution_eligibility` on the durable job.
unfoldable pub job_binding_decision : Remediation → Host → DurableJob → GateDecision
job_binding_decision r host job =
    if not (same_text job.remediation_id (some r.id))
      || not (same_text job.host_id (some host.id))
      || not (same_text job.scan_id r.scan_id)
    then deny_approval GateCode.host_binding_invalid
    else if not (same_text job.approval_scope (some (expected_job_scope r)))
    then deny_approval_saying GateCode.approval_scope_invalid
        "Durable job approval scope is invalid"
    else if not (same_num job.approved_plan_version (some r.plan_version))
    then deny_approval GateCode.plan_version_changed
    else if not (same_text job.approved_plan_hash (some r.plan_hash))
    then deny_approval GateCode.plan_hash_changed
    else if not (same_num r.approved_plan_version job.approved_plan_version)
    then deny_approval_saying GateCode.plan_binding_changed
        "Approved remediation plan version binding changed"
    else if not (same_text r.approved_plan_hash job.approved_plan_hash)
    then deny_approval_saying GateCode.plan_binding_changed
        "Approved remediation plan hash binding changed"
    else allow

abbrev pub job_decision : Remediation → Host → Option DurableJob → GateDecision
job_decision r host none = allow
job_decision r host (some job) = job_binding_decision r host job

unfoldable pub duplicate_execution : DurableJob → Option String → GateDecision
duplicate_execution existing campaign_id =
    if not (same_text existing.campaign_id campaign_id)
    then deny_approval GateCode.duplicate_execution
    else allow

module _ (hash : PlanPayload → String) where
  unfoldable pub execution_eligibility :
      Remediation → Host → Option DurableJob → Bool → GateDecision
  execution_eligibility r host job active_rollback_failure =
      let approval = approval_decision hash r host in
      let snapshot = snapshot_requirement host r in
      if active_rollback_failure
      then deny_safety GateCode.active_rollback_failure
      else if not approval.allowed
      then approval
      else if not snapshot.decision.allowed
      then snapshot.decision
      else job_decision r host job

  unfoldable pub reboot_execution_eligibility : Remediation → Host → Bool → GateDecision
  reboot_execution_eligibility r host reboot_required =
      if not reboot_required then allow else approval_decision hash r host
