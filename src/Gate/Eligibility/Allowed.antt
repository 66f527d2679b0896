-- ===== src/Gate/Eligibility/Allowed.antt =====
-- The decisions of `execution_eligibility` against the conditions of `Conditions`
-- (trusted_change.py).
use aisys_adm.Prelude.{
  String, ◌≡◌, refl, ◌↔◌, Bool, true, false, Option, none, some, arith, not, if◌then◌else◌, eq_iff,
  same_text_iff, same_num_iff,
}
use aisys_adm.Models.Hosts.{Host}
use aisys_adm.Models.Jobs.{DurableJob}
use aisys_adm.Models.Remediations.{Remediation}
use aisys_adm.Gate.Decision.{GateDecision, allow, deny}
use aisys_adm.Gate.Plan.{PlanPayload, plan_payload, plan_hash, reboot_risk, expected_job_scope}
use aisys_adm.Gate.Approval.{
  catalog_decision, evidence_decision, reboot_approval_decision, approval_decision,
}
use aisys_adm.Gate.Execution.{
  snapshot_requirement, protection_configured, job_binding_decision, job_decision,
  execution_eligibility,
}
use aisys_adm.Gate.Eligibility.Conditions.{
  IsCataloged, HasEvidence, RebootApproved, PlanApproved, SnapshotReady, JobBound, AnyJobBound,
}

pub catalog_allowed : (r : Remediation) → (catalog_decision r).allowed ≡ true ↔ IsCataloged r
unfolding catalog_decision allow deny
catalog_allowed r = ground (
  arith,
  eq_iff r.approval_scope "patch_only",
  eq_iff r.action_type "package_upgrade",
  eq_iff r.update_scope "security",
  eq_iff r.update_scope "all",
)

pub evidence_allowed : (r : Remediation) → (evidence_decision r).allowed ≡ true ↔ HasEvidence r
unfolding evidence_decision allow deny
evidence_allowed r = ground arith

reboot_allowed :
    (r : Remediation) (host : Host)
    → (reboot_approval_decision r host).allowed ≡ true ↔ RebootApproved r host
unfolding reboot_approval_decision allow deny
reboot_allowed r host = ground (
  arith,
  same_num_iff r.reboot_approved_plan_version (some r.plan_version),
  same_text_iff r.reboot_approved_plan_hash (some r.plan_hash),
)

pub snapshot_allowed :
    (r : Remediation) (host : Host)
    → (snapshot_requirement host r).decision.allowed ≡ true ↔ SnapshotReady r host
unfolding snapshot_requirement protection_configured reboot_risk allow deny
snapshot_allowed r host = ground arith

job_allowed :
    (r : Remediation) (host : Host) (job : DurableJob)
    → r.approved_plan_version ≡ some r.plan_version
    → r.approved_plan_hash ≡ some r.plan_hash
    → (job_binding_decision r host job).allowed ≡ true ↔ JobBound r host job
unfolding job_binding_decision allow deny
job_allowed r host job v w = ground (
  arith,
  same_text_iff job.remediation_id (some r.id),
  same_text_iff job.host_id (some host.id),
  same_text_iff job.scan_id r.scan_id,
  same_text_iff job.approval_scope (some (expected_job_scope r)),
  same_num_iff job.approved_plan_version (some r.plan_version),
  same_text_iff job.approved_plan_hash (some r.plan_hash),
  same_num_iff r.approved_plan_version job.approved_plan_version,
  same_text_iff r.approved_plan_hash job.approved_plan_hash,
)

-- A chain of three decisions allows what each of them allows.
three_allowed :
    (a b c : GateDecision)
    → (if not a.allowed then a else if not b.allowed then b else c).allowed ≡ true
      ↔ (a.allowed ≡ true) × (b.allowed ≡ true) × (c.allowed ≡ true)
three_allowed a b c = ground arith

module _ (hash : PlanPayload → String) where
  pub approval_allowed :
      (r : Remediation) (host : Host)
      → (approval_decision hash r host).allowed ≡ true ↔ PlanApproved hash r host
  unfolding approval_decision plan_hash reboot_risk allow deny
  approval_allowed r host = ground (
    arith,
    catalog_allowed r,
    evidence_allowed r,
    reboot_allowed r host,
    eq_iff r.host_id host.id,
    eq_iff r.plan_hash "",
    eq_iff r.plan_hash (hash (plan_payload r)),
    same_num_iff r.approved_plan_version (some r.plan_version),
    same_text_iff r.approved_plan_hash (some r.plan_hash),
  )

  any_job_allowed :
      (r : Remediation) (host : Host) (job : Option DurableJob)
      → PlanApproved hash r host
      → (job_decision r host job).allowed ≡ true ↔ AnyJobBound r host job
  unfolding allow
  any_job_allowed r host none p = (λ h. tt, λ h. refl)
  any_job_allowed r host (some job) p = job_allowed r host job p.version p.hash

  -- `execution_eligibility` allows a plan, on a host and for a job or none, exactly when no rollback
  -- failure is open on the host, the plan is approved, the snapshot protection is ready and the job,
  -- if there is one, is bound to this plan.
  pub execution_allowed :
      (r : Remediation) (host : Host) (job : Option DurableJob) (active_rollback_failure : Bool)
      → (execution_eligibility hash r host job active_rollback_failure).allowed ≡ true
        ↔ (active_rollback_failure ≡ false)
          × PlanApproved hash r host
          × SnapshotReady r host
          × AnyJobBound r host job
  unfolding execution_eligibility deny
  execution_allowed r host job true = (λ h. cc, λ h. cc (h.0))
  execution_allowed r host job false =
      let approval = approval_allowed r host in
      let ready = snapshot_allowed r host in
      let (parts, whole) =
        three_allowed (approval_decision hash r host) (snapshot_requirement host r).decision
          (job_decision r host job) in
      (
        λ h.
            let (a, s, j) = parts h in
            let plan = approval.0 a in
            (refl, plan, ready.0 s, (any_job_allowed r host job plan).0 j),
        λ h. whole (approval.1 h.1, ready.1 h.2, (any_job_allowed r host job h.1).1 h.3),
      )
