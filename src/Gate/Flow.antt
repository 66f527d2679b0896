-- ===== src/Gate/Flow.antt =====
-- From the approvals of a plan to its execution (trusted_change.py).
use aisys_adm.Prelude.{
  String, ◌≤◌, ◌≡◌, ◌≢◌, refl, sym, ◌∙◌, inl, inr, Bool, true, false, Option, none, arith,
  Bool-cases,
}
use aisys_adm.Models.Words.{ApprovalState, RebootStatus}
use aisys_adm.Models.Values.{Datetime}
use aisys_adm.Models.Hosts.{Host}
use aisys_adm.Models.Jobs.{DurableJob}
use aisys_adm.Models.Remediations.{Remediation, ApprovalRequest}
use aisys_adm.Gate.Plan.{PlanPayload, set_reboot_approved, reboot_risk}
use aisys_adm.Gate.Transitions.{approve_plan, approve_reboot, grant_plan, grant_reboot}
use aisys_adm.Gate.Execution.{execution_eligibility, protection_planned}
use aisys_adm.Gate.Eligibility.Conditions.{SnapshotReady}
use aisys_adm.Gate.Eligibility.Allowed.{execution_allowed}
use aisys_adm.Gate.Consent.{
  approve_plan_allowed, approve_plan_form, approve_reboot_allowed, approve_reboot_form,
  granted-PlanApproved, reboot_granted-PlanApproved,
}

granted-SnapshotReady :
    (r : Remediation) (host : Host) (actor : String) (t : Datetime)
    → SnapshotReady r host
    → SnapshotReady (grant_plan r actor t) host
unfolding grant_plan set_reboot_approved protection_planned
granted-SnapshotReady r host actor t h = record { planned = h.planned; equipped = h.equipped }

reboot_granted-SnapshotReady :
    (r : Remediation) (host : Host) (actor : String) (t : Datetime)
    → SnapshotReady r host
    → SnapshotReady (grant_reboot r actor t) host
unfolding grant_reboot set_reboot_approved protection_planned
reboot_granted-SnapshotReady r host actor t h = record {
  planned = h.planned;
  equipped = h.equipped;
}

status-grant_plan :
    (r : Remediation) (actor : String) (t : Datetime)
    → (grant_plan r actor t).reboot_assessment.status ≡ r.reboot_assessment.status
unfolding grant_plan set_reboot_approved
status-grant_plan r actor t = refl

reboot_state-grant_plan :
    (r : Remediation) (actor : String) (t : Datetime)
    → r.reboot_assessment.status ≢ RebootStatus.not_expected
    → (grant_plan r actor t).reboot_approval_state ≡ ApprovalState.pending
unfolding grant_plan reboot_risk
reboot_state-grant_plan r actor t h = ground arith

module _ (hash : PlanPayload → String) where
  -- A plan with a hash and a version, approved by a named actor, whose reboot assessment expects no
  -- reboot and whose snapshot protection is ready, may run, where no rollback failure is open.
  pub plan_approval_suffices :
      (r : Remediation) (host : Host) (request : ApprovalRequest) (actor : String) (t : Datetime)
      → let approval = approve_plan hash r host request actor t in
        approval.decision.allowed ≡ true
        → r.reboot_assessment.status ≡ RebootStatus.not_expected
        → actor ≢ ""
        → r.plan_hash ≢ ""
        → 1 ≤ r.plan_version
        → SnapshotReady r host
        → (execution_eligibility hash approval.remediation host none false).allowed ≡ true
  plan_approval_suffices r host request actor t allowed calm a p v ready =
      let (pending, m, c, e) = (approve_plan_allowed hash r host request actor t).0 allowed in
      rw (approve_plan_form hash r host request actor t allowed) (
        (execution_allowed hash (grant_plan r actor t) host none false).1 (
          refl,
          granted-PlanApproved hash r host request actor t m c e a p v calm,
          granted-SnapshotReady r host actor t ready,
          tt,
        ))

  -- The approval of a plan that may reboot does not let it run, on any host and for any job: its
  -- reboot has to be approved separately.
  pub plan_approval_is_not_reboot_approval :
      (r : Remediation) (host other : Host) (request : ApprovalRequest) (actor : String)
      (t : Datetime) (job : Option DurableJob) (f : Bool)
      → let approval = approve_plan hash r host request actor t in
        approval.decision.allowed ≡ true
        → r.reboot_assessment.status ≢ RebootStatus.not_expected
        → (execution_eligibility hash approval.remediation other job f).allowed ≡ false
  plan_approval_is_not_reboot_approval r host other request actor t job f allowed risky =
      rw (approve_plan_form hash r host request actor t allowed)
        (elim (Bool-cases (execution_eligibility hash (grant_plan r actor t) other job f).allowed) [
          | inl e ↦
              elim ((execution_allowed hash (grant_plan r actor t) other job f).0 e).1.reboot [
                | inl calm ↦ absurd (risky (sym (status-grant_plan r actor t) ∙ calm))
                | inr approved ↦ cc (approved.state, reboot_state-grant_plan r actor t risky)
              ]
          | inr e ↦ e
        ])

  -- The two approvals, each allowed and each by a named actor, let a plan that may reboot run, where
  -- it has a hash and a version, its snapshot protection is ready and no rollback failure is open.
  pub two_approvals_suffice :
      (r : Remediation) (host : Host) (request again : ApprovalRequest) (actor second : String)
      (t u : Datetime)
      → let approval = approve_plan hash r host request actor t in
        let reboot = approve_reboot hash approval.remediation host again second u in
        approval.decision.allowed ≡ true
        → reboot.decision.allowed ≡ true
        → actor ≢ ""
        → second ≢ ""
        → r.plan_hash ≢ ""
        → 1 ≤ r.plan_version
        → SnapshotReady r host
        → (execution_eligibility hash reboot.remediation host none false).allowed ≡ true
  two_approvals_suffice r host request again actor second t u allowed allowed' a b p v ready =
      let first = grant_plan r actor t in
      let form = approve_plan_form hash r host request actor t allowed in
      let (pending, m, c, e) = (approve_plan_allowed hash r host request actor t).0 allowed in
      let granted : (approve_reboot hash first host again second u).decision.allowed ≡ true =
        rw form at allowed' in
      let policy = ((approve_reboot_allowed hash first host again second u).0 granted).3 in
      rw (form, approve_reboot_form hash first host again second u granted)
        ((execution_allowed hash (grant_reboot first second u) host none false).1 (
          refl,
          reboot_granted-PlanApproved hash r host request again actor second t u m c e a b p v
              policy,
          reboot_granted-SnapshotReady first host second u
              (granted-SnapshotReady r host actor t ready),
          tt,
        ))
