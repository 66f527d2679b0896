-- ===== src/Scenarios/Plans.antt =====
-- Approving, changing and running the plan of one host.
use aisys_adm.Prelude.{
  ◌≡◌, ◌≢◌, refl, inl, inr, String, true, false, none, some, arith, eq_iff, ◌==◌, same_num,
  same_text,
}
use aisys_adm.Models.Words.{ApprovalState, RebootStatus, RebootPolicy}
use aisys_adm.Models.Hosts.{Host}
use aisys_adm.Models.Remediations.{Remediation}
use aisys_adm.Gate.Decision.{allow, deny}
use aisys_adm.Gate.Plan.{
  plan_payload, plan_hash, reboot_risk, expected_job_scope, set_reboot_approved,
}
use aisys_adm.Gate.Approval.{catalog_decision, evidence_decision, approval_decision}
use aisys_adm.Gate.Execution.{
  protection_planned, protection_configured, snapshot_requirement, job_binding_decision,
  execution_eligibility,
}
use aisys_adm.Gate.Transitions.{
  reconcile_plan, validate_approval_request, grant_plan, approve_plan, approve_reboot,
}
use aisys_adm.Gate.Eligibility.Conditions.{
  IsCataloged, HasEvidence, PlanApproved, SnapshotReady, AnyJobBound,
}
use aisys_adm.Gate.Eligibility.Allowed.{execution_allowed}
use aisys_adm.Gate.Reconciled.{
  IsCurrent, reconcile-IsCurrent, changed_plan_denied, tampered_plan_denied,
}
use aisys_adm.Gate.Consent.{RequestMatches, approve_plan_allowed, approve_reboot_allowed}
use aisys_adm.Gate.Flow.{
  plan_approval_suffices, plan_approval_is_not_reboot_approval, two_approvals_suffice,
}
use aisys_adm.Scenarios.Fixtures.{
  digest, at, host, plan, risky_plan, approved_plan, widened_plan, request_for, job,
}

texts_differ : (a b : String) → (a == b) ≡ false → a ≢ b
texts_differ a b h e = ground (arith, eq_iff a b)

approved_plan_runs :
    (execution_eligibility digest approved_plan host (some job) false).allowed ≡ true
unfolding execution_eligibility approval_decision plan_hash catalog_decision evidence_decision
    snapshot_requirement protection_planned protection_configured reboot_risk job_binding_decision
    expected_job_scope plan_payload same_num same_text allow deny
approved_plan_runs = refl

execution_allowed_example :
    (false ≡ false)
    × PlanApproved digest approved_plan host
    × SnapshotReady approved_plan host
    × AnyJobBound approved_plan host (some job)
execution_allowed_example =
    (execution_allowed digest approved_plan host (some job) false).0 approved_plan_runs

tampered_plan_denied_example :
    ((execution_eligibility digest widened_plan host (some job) false).allowed ≡ false)
    × ((reconcile_plan digest widened_plan (at 20)).changed ≡ true)
unfolding plan_payload
tampered_plan_denied_example =
    tampered_plan_denied digest approved_plan widened_plan host host (some job) (some job) false
      false (at 20) approved_plan_runs refl
      (texts_differ (digest (plan_payload widened_plan)) (digest (plan_payload approved_plan)) refl)

reconcile-IsCurrent_example :
    IsCurrent digest (reconcile_plan digest widened_plan (at 20)).remediation
reconcile-IsCurrent_example = reconcile-IsCurrent digest widened_plan (at 20)

widened_plan_changed : (reconcile_plan digest widened_plan (at 20)).changed ≡ true
unfolding reconcile_plan plan_hash plan_payload
widened_plan_changed = refl

changed_plan_denied_example :
    (execution_eligibility digest
      (reconcile_plan digest widened_plan (at 20)).remediation
      host
      (some job)
      false).allowed
    ≡ false
changed_plan_denied_example =
    changed_plan_denied digest widened_plan (at 20) host (some job) false widened_plan_changed

plan_approval_allowed :
    (approve_plan digest plan host (request_for plan) "alice" (at 10)).decision.allowed ≡ true
unfolding approve_plan validate_approval_request plan_hash plan_payload catalog_decision
    evidence_decision allow deny
plan_approval_allowed = refl

risky_approval_allowed :
    (approve_plan digest risky_plan host (request_for risky_plan) "alice" (at 10)).decision.allowed
    ≡ true
unfolding approve_plan validate_approval_request plan_hash plan_payload catalog_decision
    evidence_decision allow deny
risky_approval_allowed = refl

approve_plan_allowed_example :
    (plan.approval_state ≡ ApprovalState.pending)
    × RequestMatches digest host plan (request_for plan)
    × IsCataloged plan
    × HasEvidence plan
approve_plan_allowed_example =
    (approve_plan_allowed digest plan host (request_for plan) "alice" (at 10)).0
      plan_approval_allowed

second_approval_denied :
    (approve_plan digest approved_plan host
      (request_for approved_plan)
      "bob"
      (at 20)).decision.allowed
    ≡ false
unfolding approve_plan deny
second_approval_denied = refl

abbrev risky_approved : Remediation
risky_approved = record risky_plan {
  approval_state = ApprovalState.approved;
  approved_by = some "alice";
  approved_plan_version = some 1;
  approved_plan_hash = some "host-1/security/reboot";
}

abbrev steady_host : Host
steady_host = record host {
  patch_policy = record host.patch_policy { reboot_policy = RebootPolicy.never };
}

reboot_allowed_here :
    (approve_reboot digest risky_approved host
      (request_for risky_approved)
      "bob"
      (at 20)).decision.allowed
    ≡ true
unfolding approve_reboot validate_approval_request plan_hash plan_payload reboot_risk allow deny
reboot_allowed_here = refl

approve_reboot_allowed_example :
    (risky_approved.approval_state ≡ ApprovalState.approved)
    × RequestMatches digest host risky_approved (request_for risky_approved)
    × (risky_approved.reboot_assessment.status ≢ RebootStatus.not_expected)
    × (host.patch_policy.reboot_policy ≡ RebootPolicy.if_required)
approve_reboot_allowed_example =
    (approve_reboot_allowed digest risky_approved host (request_for risky_approved) "bob" (at 20)).0
      reboot_allowed_here

ready : (r : Remediation) → protection_planned r ≡ false → SnapshotReady r host
ready r h = record { planned = inl h; equipped = inr (inl refl) }

unprotected : (protection_planned plan ≡ false) × (protection_planned risky_plan ≡ false)
unfolding protection_planned
unprotected = (refl, refl)

plan_approval_is_not_reboot_approval_example :
    (execution_eligibility digest
      (approve_plan digest risky_plan host (request_for risky_plan) "alice" (at 10)).remediation
      host
      none
      false).allowed
    ≡ false
plan_approval_is_not_reboot_approval_example =
    plan_approval_is_not_reboot_approval digest risky_plan host host (request_for risky_plan)
      "alice" (at 10) none false risky_approval_allowed (λ e. ground (arith, e))

plan_approval_suffices_example :
    (execution_eligibility digest
      (approve_plan digest plan host (request_for plan) "alice" (at 10)).remediation
      host
      none
      false).allowed
    ≡ true
plan_approval_suffices_example =
    plan_approval_suffices digest plan host (request_for plan) "alice" (at 10) plan_approval_allowed
      refl (texts_differ "alice" "" refl) (texts_differ plan.plan_hash "" refl) (ground arith)
      (ready plan unprotected.0)

both_allowed :
    (approve_reboot digest
      (approve_plan digest risky_plan host (request_for risky_plan) "alice" (at 10)).remediation
      host
      (request_for risky_plan)
      "bob"
      (at 20)).decision.allowed
    ≡ true
unfolding approve_plan grant_plan set_reboot_approved validate_approval_request plan_hash
    plan_payload catalog_decision evidence_decision approve_reboot reboot_risk allow deny
both_allowed = refl

two_approvals_suffice_example :
    (execution_eligibility digest
      (approve_reboot digest
        (approve_plan digest risky_plan host (request_for risky_plan) "alice" (at 10)).remediation
        host
        (request_for risky_plan)
        "bob"
        (at 20)).remediation
      host
      none
      false).allowed
    ≡ true
two_approvals_suffice_example =
    two_approvals_suffice digest risky_plan host (request_for risky_plan) (request_for risky_plan)
      "alice" "bob" (at 10) (at 20) risky_approval_allowed both_allowed
      (texts_differ "alice" "" refl) (texts_differ "bob" "" refl)
      (texts_differ risky_plan.plan_hash "" refl) (ground arith) (ready risky_plan unprotected.1)
