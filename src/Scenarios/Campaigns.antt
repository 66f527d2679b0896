-- ===== src/Scenarios/Campaigns.antt =====
-- A campaign of one host: its batch, its cancellation and its end.
use mathlib.Core.List.{Memᴰ}
use aisys_adm.Prelude.{
  ◌≤◌, ◌≡◌, ◌↔◌, ◌⊎◌, refl, String, true, false, some, List, [], ◌∷◌, min, max, length, same_num,
  same_text, min_of,
}
use aisys_adm.Models.Enums.{CampaignStatus, CampaignHostState}
use aisys_adm.Models.Remediations.{Remediation}
use aisys_adm.Models.Campaigns.{CampaignHostPlan, PatchCampaign}
use aisys_adm.Gate.Decision.{allow, deny}
use aisys_adm.Gate.Plan.{plan_payload, plan_hash}
use aisys_adm.Gate.Campaign.{
  campaign_terminal, campaign_plan_binding, campaign_batch, select_host, select_hosts, batch_limit,
  canary_limit, in_progress,
}
use aisys_adm.Gate.Projection.{project_campaign}
use aisys_adm.Gate.Rollup.{live_status}
use aisys_adm.Gate.Batch.Selected.{Selectable, batch_sound}
use aisys_adm.Gate.Batch.Limits.{batch_within_limits, batch_starts}
use aisys_adm.Gate.Projected.Settled.{
  current_batch_bounds, project_campaign_last, canceled_campaign_stays_closed,
}
use aisys_adm.Gate.Projected.Status.{AllDone, succeeded_iff_done}
use aisys_adm.Scenarios.Fixtures.{
  digest, at, approved_plan, jobs, host_plan, remediations, campaign,
}

binding_holds : (campaign_plan_binding digest host_plan approved_plan).allowed ≡ true
unfolding campaign_plan_binding plan_hash plan_payload same_num same_text allow deny
binding_holds = refl

host_plan-Selectable : Selectable digest remediations host_plan approved_plan
host_plan-Selectable = record { state = refl; found = refl; bound = binding_holds }

batch_starts_example :
    let batch = campaign_batch digest campaign remediations in
    (batch.decision.allowed ≡ true) × (1 ≤ length batch.host_ids)
unfolding campaign_terminal in_progress
batch_starts_example =
    batch_starts digest campaign remediations host_plan approved_plan refl refl (Memᴰ.head refl)
      host_plan-Selectable

batch_within_limits_example :
    let size = length (campaign_batch digest campaign remediations).host_ids in
    (size ≤ max 1 campaign.batch_size)
    × (size ≤ max 1 approved_plan.rollout_policy.batch_size)
    × ((1 ≤ campaign.current_batch) ⊎ (size ≤ max 1 approved_plan.rollout_policy.canary_count))
batch_within_limits_example =
    batch_within_limits digest campaign remediations host_plan approved_plan (Memᴰ.head refl)
      host_plan-Selectable

host_in_batch : Memᴰ {A = String} "host-1" (campaign_batch digest campaign remediations).host_ids
unfolding campaign_batch campaign_terminal in_progress select_hosts select_host batch_limit
    canary_limit campaign_plan_binding plan_hash plan_payload same_num same_text min_of allow deny
host_in_batch = Memᴰ.head refl

batch_sound_example :
    (plan : CampaignHostPlan) × (r : Remediation) × Memᴰ plan campaign.hosts
    × Selectable digest remediations plan r
    × ("host-1" ≡ plan.host_id)
batch_sound_example = batch_sound digest campaign remediations "host-1" host_in_batch

project_campaign_last_example :
    project_campaign digest
      (project_campaign digest campaign remediations jobs (at 20))
      remediations
      jobs
      (at 30)
    ≡ project_campaign digest campaign remediations jobs (at 30)
project_campaign_last_example =
    project_campaign_last digest remediations jobs campaign (at 20) (at 30)

abbrev canceled : PatchCampaign
canceled = record campaign { canceled_by = some "alice"; canceled_at = some (at 15) }

canceled_campaign_stays_closed_example :
    (campaign_batch digest
      (project_campaign digest canceled remediations jobs (at 20))
      remediations).decision.allowed
    ≡ false
canceled_campaign_stays_closed_example =
    canceled_campaign_stays_closed digest remediations jobs canceled remediations (at 20) refl

current_batch_bounds_example :
    let projected = project_campaign digest campaign remediations jobs (at 20) in
    (projected.current_batch ≤ campaign.total_batches)
    × (min campaign.total_batches campaign.current_batch ≤ projected.current_batch)
current_batch_bounds_example = current_batch_bounds digest remediations jobs campaign (at 20)

abbrev done_plans : List CampaignHostPlan
done_plans =
    record host_plan { state = CampaignHostState.succeeded }
    ∷ record host_plan { state = CampaignHostState.no_action }
    ∷ []

succeeded_iff_done_example : live_status done_plans ≡ CampaignStatus.succeeded ↔ AllDone done_plans
succeeded_iff_done_example = succeeded_iff_done done_plans
