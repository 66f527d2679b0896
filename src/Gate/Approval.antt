-- ===== src/Gate/Approval.antt =====
-- The checks behind an approval: catalog, evidence and `_approval_decision` (trusted_change.py).
use aisys_adm.Prelude.{
  String, not, some, ◌==◌, ◌||◌, [], ◌∷◌, ltb, ◌is◌, mem_text, same_text, same_num, if◌then◌else◌,
}
use aisys_adm.Models.Words.{
  ApprovalState, approval_state_enum, RebootPolicy, reboot_policy_enum, DecisionStatus,
  decision_status_enum,
}
use aisys_adm.Models.Values.{has_text, is_some, nonempty}
use aisys_adm.Models.Hosts.{Host}
use aisys_adm.Models.Remediations.{Remediation}
use aisys_adm.Gate.Decision.{GateCode, GateDecision, allow, deny_safety, deny_approval}
use aisys_adm.Gate.Plan.{PlanPayload, plan_hash, reboot_risk}

unfoldable pub catalog_decision : Remediation → GateDecision
catalog_decision r =
    if not (r.approval_scope == "patch_only")
    then deny_approval GateCode.approval_scope_invalid
    else if not (mem_text r.action_type ("package_upgrade" ∷ []))
    then deny_approval GateCode.action_not_cataloged
    else if not (mem_text r.update_scope ("security" ∷ "all" ∷ []))
    then deny_approval GateCode.update_scope_not_cataloged
    else allow

unfoldable pub evidence_decision : Remediation → GateDecision
evidence_decision r =
    if not (has_text r.scan_id)
      || not (r.ai_decision.status is DecisionStatus.plan_ready)
      || not (nonempty r.ai_decision.supporting_citations)
    then deny_approval GateCode.evidence_incomplete
    else allow

-- The last part of `_approval_decision`, under `if _reboot_risk(remediation)`.
unfoldable pub reboot_approval_decision : Remediation → Host → GateDecision
reboot_approval_decision r host =
    if not (r.reboot_approval_state is ApprovalState.approved)
    then deny_approval GateCode.reboot_approval_missing
    else if not (has_text r.reboot_approved_by)
        || not (is_some r.reboot_approved_at)
        || not (same_num r.reboot_approved_plan_version (some r.plan_version))
        || not (same_text r.reboot_approved_plan_hash (some r.plan_hash))
        || not r.reboot_assessment.approved_if_required
    then deny_approval GateCode.reboot_approval_incomplete
    else if host.patch_policy.reboot_policy is RebootPolicy.never
    then deny_safety GateCode.reboot_policy_denied
    else allow

module _ (hash : PlanPayload → String) where
  unfoldable pub approval_decision : Remediation → Host → GateDecision
  approval_decision r host =
      if not (r.host_id == host.id)
      then deny_approval GateCode.host_binding_invalid
      else if not (catalog_decision r).allowed
      then catalog_decision r
      else if not (evidence_decision r).allowed
      then evidence_decision r
      else if r.plan_hash == "" || ltb r.plan_version 1
      then deny_approval GateCode.plan_metadata_incomplete
      else if not (r.plan_hash == plan_hash hash r)
      then deny_approval GateCode.plan_content_changed
      else if not (r.approval_state is ApprovalState.approved)
      then deny_approval GateCode.plan_not_approved
      else if not (has_text r.approved_by) || not (is_some r.approved_at)
      then deny_approval GateCode.approval_metadata_incomplete
      else if not (same_num r.approved_plan_version (some r.plan_version))
          || not (same_text r.approved_plan_hash (some r.plan_hash))
      then deny_approval GateCode.plan_binding_changed
      else if reboot_risk r
      then reboot_approval_decision r host
      else allow
