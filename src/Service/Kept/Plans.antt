-- ===== src/Service/Kept/Plans.antt =====
-- Plans, campaigns that follow them, failures of jobs and leases (service.py): what every stable
-- invariant withstands.
use aisys_adm.Prelude.{String, Bool, Option, List, [], ◌∷◌, none, some, ℕ, zero, suc}
use aisys_adm.Models.Words.{FailureCategory}
use aisys_adm.Models.Values.{Datetime, Dict}
use aisys_adm.Models.Hosts.{Host}
use aisys_adm.Models.Remediations.{Remediation}
use aisys_adm.Models.Jobs.{DurableJob}
use aisys_adm.Models.Campaigns.{CampaignHostPlan, PatchCampaign}
use aisys_adm.Gate.Transitions.{PlanReconciliation}
use aisys_adm.Service.World.{Store, World, Environment, Raised, Result, Call}
use aisys_adm.Service.Plans.{
  keep_reconciliation, ensure_current_remediation_plan, trusted_execution_decision,
}
use aisys_adm.Service.Sync.{
  restored_plan, restore_plans, current_remediation, current_remediations, sync_campaign,
  cancel_remediation, cancel_plan_job, stop_host, stop_host_unless_ended,
  stop_remaining_campaign_hosts, sync_linked, sync_campaigns_for_remediation,
}
use aisys_adm.Service.Failures.{
  record_terminal_job_failure, announce_failure, fail_job, assert_job_lease, save_claimed_job,
  beats, await,
}
use aisys_adm.Service.Kept.Rules.{
  Stable, Keeps, IsGuarded, each-Keeps, collect_each-Keeps, settle-Keeps, bind, next,
}
use aisys_adm.Service.Kept.Records.{leaves, call-Keeps}
use aisys_adm.Service.Kept.Jobs.{job_steps}

module _ {env : Environment} {I : World → Type 0} (stable : Stable env I) where
  pub keep_reconciliation-Keeps : (p : PlanReconciliation) → Keeps I (keep_reconciliation env p)
  unfolding keep_reconciliation
  keep_reconciliation-Keeps p = search leaves depth 12

  pub ensure_current_remediation_plan-Keeps :
      (r : Remediation) → Keeps I (ensure_current_remediation_plan env r)
  unfolding ensure_current_remediation_plan
  ensure_current_remediation_plan-Keeps r = search (leaves, keep_reconciliation-Keeps) depth 12

  pub trusted_execution_decision-Keeps :
      (r : Remediation) (host : Host) (job : Option DurableJob)
      → Keeps I (trusted_execution_decision env r host job)
  unfolding trusted_execution_decision
  trusted_execution_decision-Keeps r host job =
      search (leaves, ensure_current_remediation_plan-Keeps) depth 12

  restored_plan-Keeps :
      (c : PatchCampaign) (d : Dict Remediation) (t : Datetime) (id : String)
      → Keeps I (restored_plan env c d t id)
  unfolding restored_plan
  restored_plan-Keeps c d t id = search leaves depth 12

  restore_plans-Keeps : (c : PatchCampaign) (t : Datetime) → Keeps I (restore_plans env c t)
  unfolding restore_plans
  restore_plans-Keeps c t = search (leaves, collect_each-Keeps, restored_plan-Keeps) depth 12

  current_remediation-Keeps :
      (r : Option Remediation) (found : Dict Remediation)
      → Keeps I (current_remediation env r found)
  unfolding current_remediation
  current_remediation-Keeps none found = search leaves
  current_remediation-Keeps (some r) found =
      search (leaves, ensure_current_remediation_plan-Keeps) depth 12

  current_remediations-Keeps :
      (plans : List CampaignHostPlan) (found : Dict Remediation)
      → Keeps I (current_remediations env plans found)
  unfolding current_remediations
  current_remediations-Keeps [] found = search leaves
  current_remediations-Keeps (plan ∷ plans) found =
      bind (search leaves)
        (λ r. bind (current_remediation-Keeps r found) (current_remediations-Keeps plans))

  pub sync_campaign-Keeps : (c : PatchCampaign) → Keeps I (sync_campaign env c)
  unfolding sync_campaign
  sync_campaign-Keeps c = search (leaves, restore_plans-Keeps, current_remediations-Keeps) depth 14

  pub cancel_remediation-Keeps :
      (id : Option String) (t : Datetime) → Keeps I (cancel_remediation env id t)
  unfolding cancel_remediation
  cancel_remediation-Keeps id t = search leaves depth 12

  pub cancel_plan_job-Keeps :
      (id : Option String) (t : Datetime) (phase : String)
      → Keeps I (cancel_plan_job env id t phase)
  unfolding cancel_plan_job
  cancel_plan_job-Keeps none t phase = search leaves
  cancel_plan_job-Keeps (some id) t phase = search (leaves, job_steps) depth 12

  stop_host-Keeps : (t : Datetime) (plan : CampaignHostPlan) → Keeps I (stop_host env t plan)
  unfolding stop_host
  stop_host-Keeps t plan = search (leaves, cancel_plan_job-Keeps, cancel_remediation-Keeps) depth 14

  stop_host_unless_ended-Keeps :
      (id : String) (t : Datetime) (plan : CampaignHostPlan)
      → Keeps I (stop_host_unless_ended env id t plan)
  unfolding stop_host_unless_ended
  stop_host_unless_ended-Keeps id t plan = search (leaves, stop_host-Keeps)

  stop_remaining_campaign_hosts-Keeps :
      (c : PatchCampaign) (id : String) → Keeps I (stop_remaining_campaign_hosts env c id)
  unfolding stop_remaining_campaign_hosts
  stop_remaining_campaign_hosts-Keeps c id =
      search (leaves, collect_each-Keeps, stop_host_unless_ended-Keeps) depth 14

  sync_linked-Keeps :
      (id : String) (stop : Bool) (c : PatchCampaign) → Keeps I (sync_linked env id stop c)
  unfolding sync_linked
  sync_linked-Keeps id stop c =
      search (leaves, stop_remaining_campaign_hosts-Keeps, sync_campaign-Keeps) depth 14

  pub sync_campaigns_for_remediation-Keeps :
      (id : String) (stop : Bool) → Keeps I (sync_campaigns_for_remediation env id stop)
  unfolding sync_campaigns_for_remediation
  sync_campaigns_for_remediation-Keeps id stop = search (leaves, each-Keeps, sync_linked-Keeps)

  pub record_terminal_job_failure-Keeps :
      (job : DurableJob) (host : Option String) → Keeps I (record_terminal_job_failure env job host)
  unfolding record_terminal_job_failure
  record_terminal_job_failure-Keeps job host = search leaves

  announce_failure-Keeps :
      (job : DurableJob) (message : String) (again : Bool) (host : String)
      → Keeps I (announce_failure env job message again host)
  unfolding announce_failure
  announce_failure-Keeps job message again host = search (leaves, record_terminal_job_failure-Keeps)

  pub fail_job-Keeps :
      (job : DurableJob) (error host : String) (owner : Option String) (retryable : Bool)
      (category : FailureCategory)
      → Keeps I (fail_job env job error host owner retryable category)
  unfolding fail_job
  fail_job-Keeps job error host owner retryable category =
      search (leaves, job_steps, announce_failure-Keeps) depth 14

  pub assert_job_lease-Keeps : (id owner : String) → Keeps I (assert_job_lease env id owner)
  unfolding assert_job_lease
  assert_job_lease-Keeps id owner = search (leaves, job_steps) depth 14

  pub save_claimed_job-Keeps :
      (job : DurableJob) (owner : String) → Keeps I (save_claimed_job env job owner)
  unfolding save_claimed_job
  save_claimed_job-Keeps job owner = search (leaves, job_steps) depth 14

  pub beats-Keeps : (n : ℕ) (id owner : String) → Keeps I (beats env n id owner)
  unfolding beats
  beats-Keeps zero id owner = search leaves
  beats-Keeps (suc n) id owner = next (assert_job_lease-Keeps id owner) (beats-Keeps n id owner)

  pub await-Keeps :
      {A : Type 0} (c : Call) (answer : ℕ → Result Raised A) (id owner : String)
      → ((s : Store) → IsGuarded env s c)
      → Keeps I (await env c answer id owner)
  unfolding await
  await-Keeps c answer id owner g = search (leaves, call-Keeps, beats-Keeps, settle-Keeps)

pub ruleset plan_steps = (
  leaves, job_steps, ensure_current_remediation_plan-Keeps, trusted_execution_decision-Keeps,
  sync_campaign-Keeps, cancel_remediation-Keeps, cancel_plan_job-Keeps,
  sync_campaigns_for_remediation-Keeps, record_terminal_job_failure-Keeps, fail_job-Keeps,
  assert_job_lease-Keeps, save_claimed_job-Keeps, await-Keeps,
)
