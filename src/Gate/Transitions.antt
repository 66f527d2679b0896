-- ===== src/Gate/Transitions.antt =====
-- The transitions of a remediation plan: `reconcile_plan`, `validate_approval_request`,
-- `approve_plan` and `approve_reboot` of `TrustedChangeGate` (trusted_change.py).
use aisys_adm.Prelude.{
  ℕ, String, Bool, true, false, not, ◌+◌, ◌==◌, ◌&&◌, ◌||◌, none, some, [], ◌∷◌, eqb, ◌is◌, ◌is_in◌,
  same_text, same_num, if◌then◌else◌,
}
use aisys_adm.Models.Words.{
  ApprovalState, approval_state_enum, ExecutionState, execution_state_enum, RebootPolicy,
  reboot_policy_enum,
}
use aisys_adm.Models.Values.{Datetime}
use aisys_adm.Models.Hosts.{Host}
use aisys_adm.Models.Remediations.{Remediation, ApprovalRequest}
use aisys_adm.Gate.Decision.{
  GateCode, GateDecision, allow, reasons, deny_safety, deny_approval, deny_approval_saying,
}
use aisys_adm.Gate.Plan.{PlanPayload, plan_hash, reboot_risk, set_reboot_approved}
use aisys_adm.Gate.Approval.{catalog_decision, evidence_decision}

pub record RemediationTransition : Type 0 where
  pub decision : GateDecision
  pub remediation : Remediation

pub record PlanReconciliation : Type 0 where
  pub decision : GateDecision
  pub changed : Bool
  pub content_changed : Bool
  pub previous_plan_version : ℕ
  pub previous_plan_hash : String
  pub remediation : Remediation

-- approval_state == "approved" and the approved version or hash is not the current one
unfoldable pub approval_binding_changed : Remediation → Bool
approval_binding_changed r =
    r.approval_state is ApprovalState.approved
    && (not (same_num r.approved_plan_version (some r.plan_version))
        || not (same_text r.approved_plan_hash (some r.plan_hash)))

-- The block of assignments that takes every approval back.
unfoldable pub withdraw_approvals : Remediation → Datetime → Remediation
withdraw_approvals r current = record r {
  approval_state = ApprovalState.pending;
  approved_by = none;
  approved_at = none;
  approved_plan_version = none;
  approved_plan_hash = none;
  reboot_approval_state =
      if not (reboot_risk r) then ApprovalState.not_required else ApprovalState.pending;
  reboot_approved_by = none;
  reboot_approved_at = none;
  reboot_approved_plan_version = none;
  reboot_approved_plan_hash = none;
  reboot_assessment = set_reboot_approved false r.reboot_assessment;
  execution_state =
      if not (
        r.execution_state
        is_in (ExecutionState.running ∷ ExecutionState.succeeded ∷ ExecutionState.failed ∷ []))
      then ExecutionState.blocked
      else r.execution_state;
  updated_at = current;
}

-- The fields that `approve_plan` sets once every check has passed.
unfoldable pub grant_plan : Remediation → String → Datetime → Remediation
grant_plan r actor current = record r {
  approval_state = ApprovalState.approved;
  approved_by = some actor;
  approved_at = some current;
  approved_plan_version = some r.plan_version;
  approved_plan_hash = some r.plan_hash;
  reboot_approval_state =
      if reboot_risk r then ApprovalState.pending else ApprovalState.not_required;
  reboot_approved_by = none;
  reboot_approved_at = none;
  reboot_approved_plan_version = none;
  reboot_approved_plan_hash = none;
  reboot_assessment = set_reboot_approved false r.reboot_assessment;
  updated_at = current;
}

-- The fields that `approve_reboot` sets once every check has passed.
unfoldable pub grant_reboot : Remediation → String → Datetime → Remediation
grant_reboot r actor current = record r {
  reboot_approval_state = ApprovalState.approved;
  reboot_approved_by = some actor;
  reboot_approved_at = some current;
  reboot_approved_plan_version = some r.plan_version;
  reboot_approved_plan_hash = some r.plan_hash;
  reboot_assessment = set_reboot_approved true r.reboot_assessment;
  updated_at = current;
}

module _ (hash : PlanPayload → String) where
  -- `plan_version += 1`, then the hash of the plan under its new version.
  unfoldable pub new_version : Remediation → Remediation
  new_version r =
      let bumped = record r { plan_version = r.plan_version + 1 } in
      record bumped { plan_hash = plan_hash hash bumped }

  unfoldable pub reconcile_plan : Remediation → Datetime → PlanReconciliation
  unfolding approval_binding_changed
  reconcile_plan r current =
      let content_changed = not (r.plan_hash == plan_hash hash r) in
      if not content_changed && not (approval_binding_changed r)
      then record {
        decision = allow;
        changed = false;
        content_changed = false;
        previous_plan_version = r.plan_version;
        previous_plan_hash = r.plan_hash;
        remediation = r;
      }
      else record {
        decision =
            if content_changed
            then deny_approval_saying GateCode.plan_content_changed
                "Remediation approved plan content changed after approval"
            else deny_approval_saying GateCode.plan_binding_changed
                (reasons GateCode.plan_binding_changed);
        changed = true;
        content_changed = content_changed;
        previous_plan_version = r.plan_version;
        previous_plan_hash = r.plan_hash;
        remediation = withdraw_approvals (if content_changed then new_version r else r) current;
      }

  unfoldable pub validate_approval_request : Host → Remediation → ApprovalRequest → GateDecision
  validate_approval_request host r request =
      if not (r.host_id == host.id)
      then deny_approval GateCode.host_binding_invalid
      else if not (request.hostname_confirmation == host.name)
      then deny_approval GateCode.hostname_mismatch
      else if not (eqb request.plan_version r.plan_version)
      then deny_approval_saying GateCode.plan_version_changed
          "The remediation plan changed and must be reviewed again"
      else if not (request.plan_hash == r.plan_hash)
      then deny_approval_saying GateCode.plan_hash_changed
          "The remediation plan changed and must be reviewed again"
      else if not (r.plan_hash == plan_hash hash r)
      then deny_approval_saying GateCode.plan_content_changed
          "The remediation plan changed and must be reviewed again"
      else allow

  unfoldable pub approve_plan :
      Remediation → Host → ApprovalRequest → String → Datetime → RemediationTransition
  approve_plan r host request actor current =
      let request_decision = validate_approval_request host r request in
      if not (r.approval_state is ApprovalState.pending)
      then record { decision = deny_approval GateCode.plan_not_pending; remediation = r }
      else if not request_decision.allowed
      then record { decision = request_decision; remediation = r }
      else if not (catalog_decision r).allowed
      then record { decision = catalog_decision r; remediation = r }
      else if not (evidence_decision r).allowed
      then record { decision = evidence_decision r; remediation = r }
      else record { decision = allow; remediation = grant_plan r actor current }

  unfoldable pub approve_reboot :
      Remediation → Host → ApprovalRequest → String → Datetime → RemediationTransition
  approve_reboot r host request actor current =
      let request_decision = validate_approval_request host r request in
      if not (r.approval_state is ApprovalState.approved)
      then record {
        decision =
            deny_approval_saying GateCode.plan_not_approved
              "The remediation plan must be approved before reboot approval";
        remediation = r;
      }
      else if not request_decision.allowed
      then record { decision = request_decision; remediation = r }
      else if not (reboot_risk r)
      then record { decision = deny_approval GateCode.reboot_not_required; remediation = r }
      else if host.patch_policy.reboot_policy is RebootPolicy.never
      then record {
        decision = deny_safety GateCode.reboot_policy_denied;
        remediation = record r {
          reboot_approval_state = ApprovalState.blocked;
          execution_state = ExecutionState.blocked;
          updated_at = current;
        };
      }
      else record { decision = allow; remediation = grant_reboot r actor current }
