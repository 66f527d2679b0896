-- ===== src/Gate/Projected/Settled.antt =====
-- Campaigns under repeated projections, their cancellation and their batch counter
-- (`project_campaign` of trusted_change.py).
use aisys_adm.Prelude.{
  ℕ, String, ◌≤◌, ◌≡◌, refl, inl, inr, true, false, List, [], ◌∷◌, map, arith, Bool-cases, min, max,
  any, ◌is◌,
}
use aisys_adm.Models.Enums.{
  CampaignHostState, CampaignStatus, campaign_host_state_enum, campaign_status_enum,
}
use aisys_adm.Models.Words.{approval_state_enum}
use aisys_adm.Models.Values.{Datetime, Dict, is_some}
use aisys_adm.Models.Remediations.{Remediation}
use aisys_adm.Models.Jobs.{DurableJob}
use aisys_adm.Models.Campaigns.{CampaignHostPlan, PatchCampaign}
use aisys_adm.Gate.Plan.{PlanPayload}
use aisys_adm.Gate.Decision.{deny}
use aisys_adm.Gate.Campaign.{campaign_batch, campaign_terminal}
use aisys_adm.Gate.Projection.{project_plan, project_campaign}
use aisys_adm.Gate.Rollup.{
  live_status, terminal_status, project_terminal_campaign_status, project_campaign_status,
  settle_campaign, completed_batches, in_states, completed_hosts, succeeded_hosts, failed_hosts,
  awaiting_hosts, approved_hosts, actionable_hosts,
}
use aisys_adm.Gate.Projected.Hosts.{project_plan_last, state-project_plan}

terminal-ne-canceled :
    (succeeded failed awaiting approved actionable : ℕ)
    → (terminal_status succeeded failed awaiting approved actionable is CampaignStatus.canceled)
      ≡ false
unfolding terminal_status
terminal-ne-canceled s f w a n = ground arith

live-ne-canceled :
    (hosts : List CampaignHostPlan) → (live_status hosts is CampaignStatus.canceled) ≡ false
unfolding live_status project_terminal_campaign_status
live-ne-canceled hosts = ground (
  arith,
  terminal-ne-canceled (succeeded_hosts hosts) (failed_hosts hosts) (awaiting_hosts hosts)
      (approved_hosts hosts) (actionable_hosts hosts),
)

settled_batch :
    (total current before after : ℕ)
    → before ≡ after
    → min total (max (min total (max current before)) after) ≡ min total (max current after)
settled_batch total current before after e = omega arith

batches_same :
    (c : PatchCampaign) (before after : List CampaignHostPlan)
    → completed_hosts before ≡ completed_hosts after
    → completed_batches (record c { hosts = before })
      ≡ completed_batches (record c { hosts = after })
unfolding completed_batches
batches_same c before after e = rw e

settle_last :
    (c : PatchCampaign) (before after : List CampaignHostPlan) (t u : Datetime)
    → completed_hosts before ≡ completed_hosts after
    → settle_campaign (record (settle_campaign (record c { hosts = before }) t) { hosts = after }) u
      ≡ settle_campaign (record c { hosts = after }) u
unfolding settle_campaign project_campaign_status completed_batches
settle_last c before after t u same = elim (Bool-cases (is_some c.canceled_at)) [
  | inl e ↦ simp (e, same) (ground arith)
  | inr e ↦ elim (Bool-cases (c.status is CampaignStatus.canceled)) [
    | inl f ↦ simp (e, f, same) (ground arith)
    | inr f ↦ simp (e, f, live-ne-canceled before, same) (ground arith)
  ]
]

counters-status :
    (c : PatchCampaign)
    → ((project_campaign_status c).total_batches ≡ c.total_batches)
      × ((project_campaign_status c).current_batch ≡ c.current_batch)
unfolding project_campaign_status
counters-status c = ground arith

settle-terminal :
    (c : PatchCampaign) (t : Datetime)
    → is_some c.canceled_at ≡ true
    → campaign_terminal (settle_campaign c t) ≡ true
unfolding settle_campaign project_campaign_status campaign_terminal
settle-terminal c t h =
    elim (Bool-cases (any (in_states (CampaignHostState.running ∷ [])) c.hosts)) [
      | inl e ↦ simp (h, e)
      | inr e ↦ simp (h, e)
    ]

batch_closed :
    (hash : PlanPayload → String) (c : PatchCampaign) (remediations : Dict Remediation)
    → campaign_terminal c ≡ true
    → (campaign_batch hash c remediations).decision.allowed ≡ false
unfolding campaign_batch deny
batch_closed hash c remediations h = rw h

module _ (hash : PlanPayload → String) (remediations : Dict Remediation)
    (jobs : Dict DurableJob) where
  completed-projected :
      (plans : List CampaignHostPlan) (t u : Datetime)
      → completed_hosts (map (project_plan hash remediations jobs t) plans)
        ≡ completed_hosts (map (project_plan hash remediations jobs u) plans)
  completed-projected [] t u = refl
  completed-projected (plan ∷ plans) t u =
      rw (state-project_plan hash remediations jobs t u plan, completed-projected plans t u)

  map-project_last :
      (plans : List CampaignHostPlan) (t u : Datetime)
      → map
          (project_plan hash remediations jobs u)
          (map (project_plan hash remediations jobs t) plans)
        ≡ map (project_plan hash remediations jobs u) plans
  map-project_last [] t u = refl
  map-project_last (plan ∷ plans) t u =
      rw (project_plan_last hash remediations jobs t u plan, map-project_last plans t u)

  hosts-settle : (c : PatchCampaign) (t : Datetime) → (settle_campaign c t).hosts ≡ c.hosts
  unfolding settle_campaign project_campaign_status
  hosts-settle c t = ground arith

  -- To project a campaign at one time and again at another, over the same remediations and jobs, is
  -- to project it at the later time alone.
  pub project_campaign_last :
      (c : PatchCampaign) (t u : Datetime)
      → project_campaign hash (project_campaign hash c remediations jobs t) remediations jobs u
        ≡ project_campaign hash c remediations jobs u
  unfolding project_campaign
  project_campaign_last c t u =
      let f = project_plan hash remediations jobs in
      rw (hosts-settle (record c { hosts = map (f t) c.hosts }) t, map-project_last c.hosts t u)
        (settle_last c (map (f t) c.hosts) (map (f u) c.hosts) t u
          (completed-projected c.hosts t u))

  -- A campaign whose cancellation was recorded starts no batch after a projection, whatever its
  -- plans, remediations and jobs have become.
  pub canceled_campaign_stays_closed :
      (c : PatchCampaign) (others : Dict Remediation) (t : Datetime)
      → is_some c.canceled_at ≡ true
      → (campaign_batch hash (project_campaign hash c remediations jobs t) others).decision.allowed
        ≡ false
  unfolding project_campaign
  canceled_campaign_stays_closed c others t h = batch_closed hash _ others (
      settle-terminal (record c { hosts = map (project_plan hash remediations jobs t) c.hosts }) t
        h)

  -- A projection keeps the batch counter of a campaign at or below the number of its batches, and
  -- lets it fall only to that number.
  pub current_batch_bounds :
      (c : PatchCampaign) (t : Datetime)
      → let projected = project_campaign hash c remediations jobs t in
        (projected.current_batch ≤ c.total_batches)
        × (min c.total_batches c.current_batch ≤ projected.current_batch)
  unfolding project_campaign settle_campaign
  current_batch_bounds c t =
      let d = record c { hosts = map (project_plan hash remediations jobs t) c.hosts } in
      let (total, current) = counters-status d in
      (omega (arith, total), omega (arith, total, current))
