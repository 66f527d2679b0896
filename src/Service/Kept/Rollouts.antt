-- ===== src/Service/Kept/Rollouts.antt =====
-- The batches of a campaign (service.py): what every stable invariant withstands.
use aisys_adm.Prelude.{String, List, [], ◌∷◌}
use aisys_adm.Models.Values.{Datetime, Dict}
use aisys_adm.Models.Remediations.{Remediation}
use aisys_adm.Models.Jobs.{DurableJob}
use aisys_adm.Models.Campaigns.{CampaignHostPlan, PatchCampaign}
use aisys_adm.Gate.Decision.{GateDecision}
use aisys_adm.Service.World.{World, Environment, Raised, Action, Result, ok, err}
use aisys_adm.Service.Rollout.{
  or_denied, unless_denied, plan_remediations, mark_changed, prepare_host_job, prepare_host,
  require_jobs, prepare_batch, prepare_campaign_execution, cancel_host, cancel_hosts,
  cancel_in_transaction, cancel_campaign,
}
use aisys_adm.Service.Kept.Rules.{
  Stable, Keeps, collect_each-Keeps, transaction-Keeps, bind, pure-Keeps,
}
use aisys_adm.Service.Kept.Plans.{plan_steps}
use aisys_adm.Service.Kept.Changes.{
  prepare_remediation_job-Keeps, get_campaign-Keeps, validate_campaign_plan_binding-Keeps,
}

module _ {env : Environment} {I : World → Type 0} (stable : Stable env I) where
  plan_remediations-Keeps :
      (plans : List CampaignHostPlan) (d : Dict Remediation)
      → Keeps I (plan_remediations env plans d)
  unfolding plan_remediations
  plan_remediations-Keeps [] d = pure-Keeps d
  plan_remediations-Keeps (plan ∷ plans) d =
      search (plan_steps, plan_remediations-Keeps plans) depth 20

  mark_changed-Keeps : (c : PatchCampaign) (ids : List String) → Keeps I (mark_changed env c ids)
  unfolding mark_changed
  mark_changed-Keeps c [] = pure-Keeps c
  mark_changed-Keeps c (id ∷ ids) =
      search (plan_steps, λ (d : PatchCampaign). mark_changed-Keeps d ids) depth 20

  or_denied_kept :
      {A : Type 0} (x : Result Raised A × World) (h : GateDecision → Action A)
      → I x.1
      → ((d : GateDecision) → Keeps I (h d))
      → I (or_denied x h).1
  or_denied_kept (ok a, w) h i k = i
  or_denied_kept (err (Raised.gate_denied d), w) h i k = (k d).runs w i
  or_denied_kept (err (Raised.value_error m), w) h i k = i
  or_denied_kept (err Raised.job_lease_lost, w) h i k = i
  or_denied_kept (err (Raised.non_retryable m c), w) h i k = i
  or_denied_kept (err (Raised.other m), w) h i k = i

  unless_denied-Keeps :
      {A : Type 0} {m : Action A} {h : GateDecision → Action A}
      → Keeps I m
      → ((d : GateDecision) → Keeps I (h d))
      → Keeps I (unless_denied m h)
  unfolding unless_denied
  unless_denied-Keeps {m = m} {h = h} p q = record {
    runs = λ w i. or_denied_kept (m w) h (p.runs w i) q;
  }

  prepare_host_job-Keeps :
      (c : PatchCampaign) (actor : String) (plan : CampaignHostPlan)
      → Keeps I (prepare_host_job env c actor plan)
  unfolding prepare_host_job
  prepare_host_job-Keeps c actor plan =
      search (plan_steps, validate_campaign_plan_binding-Keeps, prepare_remediation_job-Keeps) depth
        20

  prepare_host-Keeps :
      (c : PatchCampaign) (selected : List String) (actor : String) (plan : CampaignHostPlan)
      → Keeps I (prepare_host env c selected actor plan)
  unfolding prepare_host
  prepare_host-Keeps c selected actor plan =
      search (plan_steps, unless_denied-Keeps, prepare_host_job-Keeps) depth 20

  require_jobs-Keeps :
      (c : PatchCampaign) (jobs : List DurableJob) → Keeps I (require_jobs env c jobs)
  unfolding require_jobs
  require_jobs-Keeps c jobs = search plan_steps depth 20

  prepare_batch-Keeps : (id actor : String) → Keeps I (prepare_batch env id actor)
  unfolding prepare_batch
  prepare_batch-Keeps id actor =
      search
        (
          plan_steps, get_campaign-Keeps, plan_remediations-Keeps, mark_changed-Keeps,
          collect_each-Keeps, prepare_host-Keeps, require_jobs-Keeps,
        )
        depth 24

  pub prepare_campaign_execution-Keeps :
      (id actor : String) → Keeps I (prepare_campaign_execution env id actor)
  unfolding prepare_campaign_execution
  prepare_campaign_execution-Keeps id actor =
      transaction-Keeps stable (prepare_batch-Keeps id actor)

  cancel_host-Keeps : (t : Datetime) (plan : CampaignHostPlan) → Keeps I (cancel_host env t plan)
  unfolding cancel_host
  cancel_host-Keeps t plan = search plan_steps depth 20

  cancel_hosts-Keeps :
      (t : Datetime) (plans : List CampaignHostPlan) → Keeps I (cancel_hosts env t plans)
  unfolding cancel_hosts
  cancel_hosts-Keeps t [] = pure-Keeps _
  cancel_hosts-Keeps t (plan ∷ plans) =
      bind (cancel_host-Keeps t plan) (λ x. bind (cancel_hosts-Keeps t plans) (λ y. pure-Keeps _))

  cancel_in_transaction-Keeps : (id actor : String) → Keeps I (cancel_in_transaction env id actor)
  unfolding cancel_in_transaction
  cancel_in_transaction-Keeps id actor =
      search (plan_steps, get_campaign-Keeps, cancel_hosts-Keeps) depth 20

  pub cancel_campaign-Keeps : (id actor : String) → Keeps I (cancel_campaign env id actor)
  unfolding cancel_campaign
  cancel_campaign-Keeps id actor = transaction-Keeps stable (cancel_in_transaction-Keeps id actor)
