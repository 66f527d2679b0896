-- ===== src/Gate/Campaign.antt =====
-- Campaign rollouts: `campaign_plan_binding`, `campaign_rollout_limit`, `campaign_batch` and
-- `start_campaign_batch` (trusted_change.py).
use aisys_adm.Prelude.{
  ℕ, ◌+◌, String, Bool, not, ◌==◌, ◌||◌, Option, none, some, List, [], ◌∷◌, ◌++◌, map, eqb, ◌is◌,
  ◌is_in◌, same_text, same_num, if◌then◌else◌, min, max, min_of, any, take,
}
use aisys_adm.Models.Enums.{
  CampaignStatus, campaign_status_enum, CampaignHostState, campaign_host_state_enum,
}
use aisys_adm.Models.Words.{JobStatus, job_status_enum}
use aisys_adm.Models.Values.{Datetime, Dict, get, get?, nonempty}
use aisys_adm.Models.Hosts.{Host}
use aisys_adm.Models.Remediations.{Remediation}
use aisys_adm.Models.Jobs.{DurableJob}
use aisys_adm.Models.Campaigns.{CampaignHostPlan, PatchCampaign}
use aisys_adm.Gate.Decision.{GateCode, GateDecision, allow, deny_safety, deny_approval}
use aisys_adm.Gate.Plan.{PlanPayload, plan_hash}

pub record CampaignBatchDecision : Type 0 where
  pub decision : GateDecision
  pub host_ids : List String
  pub plan_changed_host_ids : List String

unfoldable pub campaign_terminal : PatchCampaign → Bool
campaign_terminal campaign = campaign.status is_in (
    CampaignStatus.cancelling ∷ CampaignStatus.canceled ∷ CampaignStatus.succeeded
    ∷ CampaignStatus.failed ∷ [])

-- `none` is the ValueError of `min` on an empty list.
unfoldable pub campaign_rollout_limit : List Host → List Remediation → Option ℕ
campaign_rollout_limit hosts remediations =
    elim (map (λ (host : Host). host.patch_policy.max_batch_size) hosts
      ++ map (λ (r : Remediation). r.rollout_policy.batch_size) remediations) [
        | [] ↦ none
        | limit ∷ limits ↦ some (max 1 (min_of limit limits))
      ]

unfoldable pub stop_campaign_after_failure : Remediation → Bool
stop_campaign_after_failure r = r.failure_policy.stop_remaining_hosts

-- A host whose part of the current batch has not ended.
unfoldable pub in_progress : CampaignHostPlan → Bool
in_progress plan =
    plan.state
    is_in (CampaignHostState.scheduled ∷ CampaignHostState.queued ∷ CampaignHostState.running ∷ [])

-- The lists that the loop of `campaign_batch` builds.
pub record Selection : Type 0 where
  pub approved : List String
  pub changed : List String
  pub limits : List ℕ
  pub canary_limits : List ℕ

-- if canary_limits: limit = min(limit, max(1, min(canary_limits)))
unfoldable pub canary_limit : ℕ → List ℕ → ℕ
canary_limit limit [] = limit
canary_limit limit (canary ∷ canaries) = min limit (max 1 (min_of canary canaries))

module _ (hash : PlanPayload → String) where
  unfoldable pub campaign_plan_binding : CampaignHostPlan → Remediation → GateDecision
  campaign_plan_binding plan r =
      if not (r.host_id == plan.host_id)
      then deny_approval GateCode.host_binding_invalid
      else if not (same_num plan.plan_version (some r.plan_version))
          || not (same_text plan.plan_hash (some r.plan_hash))
          || not (r.plan_hash == plan_hash hash r)
      then deny_approval GateCode.campaign_plan_changed
      else allow

  -- One round of the loop: what the host adds to the lists of the hosts behind it.
  unfoldable pub select_host : CampaignHostPlan → Option Remediation → Selection → Selection
  select_host plan none rest =
      if not (plan.state is CampaignHostState.approved)
      then rest
      else record rest { changed = plan.host_id ∷ rest.changed }
  select_host plan (some r) rest =
      if not (plan.state is CampaignHostState.approved)
      then rest
      else if not (campaign_plan_binding plan r).allowed
      then record rest { changed = plan.host_id ∷ rest.changed }
      else record rest {
        approved = plan.host_id ∷ rest.approved;
        limits = r.rollout_policy.batch_size ∷ rest.limits;
        canary_limits = r.rollout_policy.canary_count ∷ rest.canary_limits;
      }

  unfoldable pub select_hosts : List CampaignHostPlan → Dict Remediation → Selection
  unfolding select_host
  select_hosts [] remediations = record {
    approved = [];
    changed = [];
    limits = [];
    canary_limits = [];
  }
  select_hosts (plan ∷ plans) remediations =
      select_host plan (get? remediations plan.remediation_id) (select_hosts plans remediations)

  -- The size of the batch, with the canary bound on the first one.
  unfoldable pub batch_limit : PatchCampaign → Selection → ℕ
  batch_limit campaign selection =
      let limit = max 1 (min_of campaign.batch_size selection.limits) in
      if eqb campaign.current_batch 0 then canary_limit limit selection.canary_limits else limit

  unfoldable pub campaign_batch : PatchCampaign → Dict Remediation → CampaignBatchDecision
  campaign_batch campaign remediations =
      let selection = select_hosts campaign.hosts remediations in
      if campaign_terminal campaign
      then record {
        decision = deny_safety GateCode.campaign_state_invalid;
        host_ids = [];
        plan_changed_host_ids = [];
      }
      else if any in_progress campaign.hosts
      then record {
        decision = deny_safety GateCode.campaign_batch_in_progress;
        host_ids = [];
        plan_changed_host_ids = [];
      }
      else if not (nonempty selection.approved)
      then record {
        decision = deny_safety GateCode.campaign_no_approved_hosts;
        host_ids = [];
        plan_changed_host_ids = selection.changed;
      }
      else record {
        decision = allow;
        host_ids = take (batch_limit campaign selection) selection.approved;
        plan_changed_host_ids = selection.changed;
      }

unfoldable pub start_host : CampaignHostPlan → Option DurableJob → Datetime → CampaignHostPlan
start_host plan none current = plan
start_host plan (some job) current = record plan {
  job_id = some job.id;
  state =
      if job.status is JobStatus.queued
      then CampaignHostState.queued
      else CampaignHostState.scheduled;
  updated_at = current;
}

unfoldable pub start_campaign_batch : PatchCampaign → Dict DurableJob → Datetime → PatchCampaign
unfolding start_host
start_campaign_batch campaign jobs_by_host current = record campaign {
  hosts =
      map (λ (plan : CampaignHostPlan). start_host plan (get jobs_by_host plan.host_id) current)
        campaign.hosts;
  status = CampaignStatus.running;
  current_batch = min campaign.total_batches (campaign.current_batch + 1);
  updated_at = current;
}
