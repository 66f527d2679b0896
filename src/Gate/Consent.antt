-- ===== src/Gate/Consent.antt =====
-- What the approvals of a plan and of its reboot need, change and permit (`approve_plan` and
-- `approve_reboot` of trusted_change.py).
use aisys_adm.Prelude.{String, ◌≤◌, ◌≡◌, ◌≢◌, ◌↔◌, true, false, arith, eq_iff}
use aisys_adm.Models.Words.{ApprovalState, RebootStatus, RebootPolicy}
use aisys_adm.Models.Values.{Datetime}
use aisys_adm.Models.Hosts.{Host}
use aisys_adm.Models.Remediations.{Remediation, ApprovalRequest}
use aisys_adm.Gate.Decision.{allow, deny}
use aisys_adm.Gate.Plan.{PlanPayload, plan_payload, plan_hash, reboot_risk, set_reboot_approved}
use aisys_adm.Gate.Transitions.{
  validate_approval_request, approve_plan, approve_reboot, grant_plan, grant_reboot,
}
use aisys_adm.Gate.Eligibility.Conditions.{IsCataloged, HasEvidence, PlanApproved}
use aisys_adm.Gate.Eligibility.Allowed.{catalog_allowed, evidence_allowed}

-- The request was made for this host, by its name, and for the current content of the plan.
pub record RequestMatches (hasher : PlanPayload → String) (host : Host) (r : Remediation)
    (request : ApprovalRequest) : Type 0 where
  pub host_bound : r.host_id ≡ host.id
  pub hostname : request.hostname_confirmation ≡ host.name
  pub version : request.plan_version ≡ r.plan_version
  pub hash : request.plan_hash ≡ r.plan_hash
  pub content : r.plan_hash ≡ hasher (plan_payload r)

module _ (hash : PlanPayload → String) where
  request_allowed :
      (host : Host) (r : Remediation) (request : ApprovalRequest)
      → (validate_approval_request hash host r request).allowed ≡ true
        ↔ RequestMatches hash host r request
  unfolding validate_approval_request plan_hash allow deny
  request_allowed host r request = ground (
    arith,
    eq_iff r.host_id host.id,
    eq_iff request.hostname_confirmation host.name,
    eq_iff request.plan_hash r.plan_hash,
    eq_iff r.plan_hash (hash (plan_payload r)),
  )

  -- `approve_plan` allows exactly a pending plan, cataloged and with its evidence, on a request that
  -- matches the host and the current content.
  pub approve_plan_allowed :
      (r : Remediation) (host : Host) (request : ApprovalRequest) (actor : String) (t : Datetime)
      → (approve_plan hash r host request actor t).decision.allowed ≡ true
        ↔ (r.approval_state ≡ ApprovalState.pending)
          × RequestMatches hash host r request
          × IsCataloged r
          × HasEvidence r
  unfolding approve_plan allow deny
  approve_plan_allowed r host request actor t =
      ground (arith, request_allowed host r request, catalog_allowed r, evidence_allowed r)

  -- An approval that is denied leaves the plan as it was.
  pub approve_plan_denied :
      (r : Remediation) (host : Host) (request : ApprovalRequest) (actor : String) (t : Datetime)
      → (approve_plan hash r host request actor t).decision.allowed ≡ false
      → (approve_plan hash r host request actor t).remediation ≡ r
  unfolding approve_plan allow
  approve_plan_denied r host request actor t h = ground arith

  pub approve_plan_form :
      (r : Remediation) (host : Host) (request : ApprovalRequest) (actor : String) (t : Datetime)
      → (approve_plan hash r host request actor t).decision.allowed ≡ true
      → (approve_plan hash r host request actor t).remediation ≡ grant_plan r actor t
  unfolding approve_plan deny
  approve_plan_form r host request actor t h = ground arith

  pub approve_reboot_form :
      (r : Remediation) (host : Host) (request : ApprovalRequest) (actor : String) (t : Datetime)
      → (approve_reboot hash r host request actor t).decision.allowed ≡ true
      → (approve_reboot hash r host request actor t).remediation ≡ grant_reboot r actor t
  unfolding approve_reboot deny
  approve_reboot_form r host request actor t h = ground arith

  -- `approve_reboot` allows exactly a plan that is approved and may reboot, on a host whose policy
  -- does not forbid it, on a request that matches the host and the current content.
  pub approve_reboot_allowed :
      (r : Remediation) (host : Host) (request : ApprovalRequest) (actor : String) (t : Datetime)
      → (approve_reboot hash r host request actor t).decision.allowed ≡ true
        ↔ (r.approval_state ≡ ApprovalState.approved)
          × RequestMatches hash host r request
          × (r.reboot_assessment.status ≢ RebootStatus.not_expected)
          × (host.patch_policy.reboot_policy ≡ RebootPolicy.if_required)
  unfolding approve_reboot reboot_risk allow deny
  approve_reboot_allowed r host request actor t = ground (arith, request_allowed host r request)

  pub granted-PlanApproved :
      (r : Remediation) (host : Host) (request : ApprovalRequest) (actor : String) (t : Datetime)
      → RequestMatches hash host r request
      → IsCataloged r
      → HasEvidence r
      → actor ≢ ""
      → r.plan_hash ≢ ""
      → 1 ≤ r.plan_version
      → r.reboot_assessment.status ≡ RebootStatus.not_expected
      → PlanApproved hash (grant_plan r actor t) host
  unfolding grant_plan plan_payload set_reboot_approved
  granted-PlanApproved r host request actor t m c e a p v s = ground (arith, eq_iff actor "")

  pub reboot_granted-PlanApproved :
      (r : Remediation) (host : Host) (request again : ApprovalRequest) (actor second : String)
      (t u : Datetime)
      → RequestMatches hash host r request
      → IsCataloged r
      → HasEvidence r
      → actor ≢ ""
      → second ≢ ""
      → r.plan_hash ≢ ""
      → 1 ≤ r.plan_version
      → host.patch_policy.reboot_policy ≡ RebootPolicy.if_required
      → PlanApproved hash (grant_reboot (grant_plan r actor t) second u) host
  unfolding grant_plan grant_reboot plan_payload set_reboot_approved
  reboot_granted-PlanApproved r host request again actor second t u m c e a b p v s =
      ground (arith, eq_iff actor "", eq_iff second "")
