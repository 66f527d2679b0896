-- ===== src/Gate/Projected/Hosts.antt =====
-- One host plan under repeated projections (`project_campaign` of trusted_change.py).
use aisys_adm.Prelude.{
  String, ◌≡◌, refl, inl, inr, false, Option, none, some, arith, Bool-cases, if◌then◌else◌, ◌is◌,
}
use aisys_adm.Models.Enums.{CampaignHostState, campaign_host_state_enum, campaign_status_enum}
use aisys_adm.Models.Words.{ApprovalState, approval_state_enum, JobStatus}
use aisys_adm.Models.Values.{Datetime, Dict, get?, has_text}
use aisys_adm.Models.Remediations.{Remediation, ExecutionResult}
use aisys_adm.Models.Jobs.{DurableJob}
use aisys_adm.Models.Campaigns.{CampaignHostPlan}
use aisys_adm.Gate.Decision.{GateDecision}
use aisys_adm.Gate.Plan.{PlanPayload}
use aisys_adm.Gate.Campaign.{campaign_plan_binding}
use aisys_adm.Gate.Projection.{
  remediation_job_is, execution_states, plan_is_changed, reviewed_host_state, campaign_host_state,
  copy_approvals, result_failure, show_state, project_host, project_plan,
}

reviewed-ne-changed :
    (r : Remediation) → (reviewed_host_state r is CampaignHostState.plan_changed) ≡ false
unfolding reviewed_host_state
reviewed-ne-changed r = ground arith

-- The state that the approvals give, from the state before.
abbrev changed_or_reviewed : CampaignHostState → Remediation → GateDecision → CampaignHostState
changed_or_reviewed state r binding =
    if plan_is_changed state r binding
    then CampaignHostState.plan_changed
    else reviewed_host_state r

-- A changed plan stays changed while it is pending, and a reviewed one stays reviewed.
changed_stable :
    (state : CampaignHostState) (r : Remediation) (b : GateDecision)
    → changed_or_reviewed (changed_or_reviewed state r b) r b ≡ changed_or_reviewed state r b
unfolding plan_is_changed
changed_stable state r b = elim (Bool-cases b.allowed) [
  | inr e ↦ simp e
  | inl e ↦ elim (Bool-cases (r.approval_state is ApprovalState.pending)) [
    | inl f ↦ elim (Bool-cases (state is CampaignHostState.plan_changed)) [
      | inl g ↦ simp (e, f, g)
      | inr g ↦ simp (e, f, g, reviewed-ne-changed r)
    ]
    | inr f ↦ elim (Bool-cases (state is CampaignHostState.plan_changed)) [
      | inl g ↦ simp (e, f, g, reviewed-ne-changed r)
      | inr g ↦ simp (e, f, g, reviewed-ne-changed r)
    ]
  ]
]

host_state_again :
    (p q : CampaignHostPlan) (r : Remediation) (job : Option DurableJob) (b : GateDecision)
    → p.state ≡ campaign_host_state q r job b
    → campaign_host_state p r job b ≡ campaign_host_state q r job b
unfolding campaign_host_state
host_state_again p q r job b h = elim (Bool-cases (remediation_job_is job JobStatus.running)) [
  | inl e ↦ rw e
  | inr e ↦ elim (Bool-cases (remediation_job_is job JobStatus.canceled)) [
    | inl f ↦ rw (e, f)
    | inr f ↦ rw (e, f) (go (execution_states r.execution_state) (rw (e, f) at h))
  ]
]
  where
    go :
        (o : Option CampaignHostState)
        → p.state ≡ (elim o [ some state ↦ state | none ↦ changed_or_reviewed q.state r b ])
        → (elim o [ some state ↦ state | none ↦ changed_or_reviewed p.state r b ])
          ≡ (elim o [ some state ↦ state | none ↦ changed_or_reviewed q.state r b ])
    go (some s) k = refl
    go none k = rw k (changed_stable q.state r b)

result_failure_again :
    (o : Option ExecutionResult) (summary : Option String)
    → result_failure o (result_failure o summary) ≡ result_failure o summary
result_failure_again none summary = refl
result_failure_again (some result) summary = ground arith

show_state_again :
    (plan : CampaignHostPlan) (r : Remediation) (s : CampaignHostState) (t u : Datetime)
    → show_state (copy_approvals (show_state (copy_approvals plan r) r s t) r) r s u
      ≡ show_state (copy_approvals plan r) r s u
unfolding show_state copy_approvals
show_state_again plan r s t u = elim (Bool-cases (s is CampaignHostState.plan_changed)) [
  | inl e ↦ simp e
  | inr e ↦ simp (e, result_failure_again)
]

binding-show_state :
    (hash : PlanPayload → String) (plan : CampaignHostPlan) (r : Remediation)
    (s : CampaignHostState) (t : Datetime)
    → campaign_plan_binding hash (show_state (copy_approvals plan r) r s t) r
      ≡ campaign_plan_binding hash plan r
unfolding campaign_plan_binding show_state copy_approvals
binding-show_state hash plan r s t = refl

state-show_state :
    (plan : CampaignHostPlan) (r : Remediation) (s : CampaignHostState) (t : Datetime)
    → (copy_approvals (show_state plan r s t) r).state ≡ s
unfolding show_state copy_approvals
state-show_state plan r s t = refl

module _ (hash : PlanPayload → String) where
  project_host_last :
      (plan : CampaignHostPlan) (o : Option Remediation) (job : Option DurableJob) (t u : Datetime)
      → project_host hash (project_host hash plan o job t) o job u ≡ project_host hash plan o job u
  unfolding project_host
  project_host_last plan none job t u = refl
  project_host_last plan (some r) job t u =
      let binding = campaign_plan_binding hash plan r in
      let copied = copy_approvals plan r in
      let s = campaign_host_state copied r job binding in
      let shown = show_state copied r s t in
      let again : campaign_host_state (copy_approvals shown r) r job binding ≡ s =
        host_state_again (copy_approvals shown r) copied r job binding
          (state-show_state copied r s t) in
      rw (binding-show_state hash plan r s t, again) (show_state_again plan r s t u)

  links-project_host :
      (plan : CampaignHostPlan) (o : Option Remediation) (job : Option DurableJob) (t : Datetime)
      → ((project_host hash plan o job t).remediation_id ≡ plan.remediation_id)
        × ((project_host hash plan o job t).job_id ≡ plan.job_id)
  unfolding project_host show_state copy_approvals
  links-project_host plan none job t = (refl, refl)
  links-project_host plan (some r) job t = (refl, refl)

  state-project_host :
      (plan : CampaignHostPlan) (o : Option Remediation) (job : Option DurableJob) (t u : Datetime)
      → (project_host hash plan o job t).state ≡ (project_host hash plan o job u).state
  unfolding project_host show_state
  state-project_host plan none job t u = refl
  state-project_host plan (some r) job t u = refl

  pub project_plan_last :
      (remediations : Dict Remediation) (jobs : Dict DurableJob) (t u : Datetime)
      (plan : CampaignHostPlan)
      → project_plan hash remediations jobs u (project_plan hash remediations jobs t plan)
        ≡ project_plan hash remediations jobs u plan
  unfolding project_plan
  project_plan_last remediations jobs t u plan = elim (Bool-cases (has_text plan.remediation_id)) [
    | inr e ↦ rw (e, e)
    | inl e ↦
        let o = get? remediations plan.remediation_id in
        let job = get? jobs plan.job_id in
        let (a, b) = links-project_host plan o job t in
        rw e (rw (a, b, e) (project_host_last plan o job t u))
  ]

  pub state-project_plan :
      (remediations : Dict Remediation) (jobs : Dict DurableJob) (t u : Datetime)
      (plan : CampaignHostPlan)
      → (project_plan hash remediations jobs t plan).state
        ≡ (project_plan hash remediations jobs u plan).state
  unfolding project_plan
  state-project_plan remediations jobs t u plan = elim (Bool-cases (has_text plan.remediation_id)) [
    | inr e ↦ rw e
    | inl e ↦ rw e (
        state-project_host plan (get? remediations plan.remediation_id) (get? jobs plan.job_id) t u)
  ]
