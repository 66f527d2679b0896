-- ===== src/Service/Releases.antt =====
-- Jobs that have waited for their time: `release_scheduled_remediation_jobs` and
-- `release_scheduled_snapshot_delete_jobs` (service.py).
use aisys_adm.Prelude.{Bool, false, not, ◌||◌, Option, none, some, List, ◌is◌, if◌then◌else◌}
use aisys_adm.Models.Enums.{rollback_snapshot_state_enum, CampaignStatus, campaign_status_enum}
use aisys_adm.Models.Words.{JobStatus, job_status_enum, JobType, job_type_enum, ExecutionState}
use aisys_adm.Models.Values.{Datetime, has_text}
use aisys_adm.Models.Snapshots.{RollbackSnapshot}
use aisys_adm.Models.Remediations.{Remediation}
use aisys_adm.Models.Jobs.{DurableJob}
use aisys_adm.Gate.Timing.{timing}
use aisys_adm.Repository.Leases.{not_after}
use aisys_adm.Repository.Jobs.{save_job}
use aisys_adm.Repository.Recovery.{values}
use aisys_adm.Service.World.{
  Environment, Raised, Action, pure, or_raise, ◌>>=◌, ◌>>◌, gets, collect_each,
}
use aisys_adm.Service.Records.{
  or_empty, on_jobs, find_host, find_remediation, find_campaign, save_remediation,
}
use aisys_adm.Service.Plans.{trusted_execution_decision}
use aisys_adm.Service.Sync.{sync_campaigns_for_remediation}
use aisys_adm.Service.Failures.{fail_job}
use aisys_adm.Service.Recovery.{somes, find_snapshot}

module _ (env : Environment) where
  unfoldable pub cancel_scheduled : Datetime → DurableJob → Action (Unit {0})
  cancel_scheduled current job = do
    on_jobs (λ jobs.
        save_job jobs
          (record job {
            status = JobStatus.canceled;
            current_phase = some "canceled";
            completed_at = some current;
            updated_at = current;
          })
          none)
    pure tt

  abbrev pub released_job : Datetime → DurableJob → DurableJob
  released_job current job = record job {
    status = JobStatus.queued;
    current_phase = none;
    updated_at = current;
  }

  unfoldable pub release_if_open : Datetime → DurableJob → Remediation → Action (Option DurableJob)
  release_if_open current job r = do
    decided ← or_raise (timing env.calendar r current) (Raised.other "Invalid maintenance window")
    if not decided.decision.allowed then pure none else do
      on_jobs (λ jobs. save_job jobs (released_job current job) none)
      sync_campaigns_for_remediation env r.id false
      pure (some (released_job current job))

  unfoldable pub release_eligible : Datetime → DurableJob → Action (Option DurableJob)
  unfolding release_if_open
  release_eligible current job = do
    stored ← find_remediation job.remediation_id
    host ← find_host stored.host_id
    (eligibility, r) ← trusted_execution_decision env stored host (some job)
    if eligibility.allowed then release_if_open current job r else do
      save_remediation (record r { execution_state = ExecutionState.blocked; updated_at = current })
      fail_job env job eligibility.message r.host_id none false eligibility.category
      sync_campaigns_for_remediation env r.id false
      pure none

  unfoldable pub campaign_of_job_is_canceled : DurableJob → Action Bool
  campaign_of_job_is_canceled job = if not (has_text job.campaign_id) then pure false else do
    campaign ← find_campaign (or_empty job.campaign_id)
    pure (campaign.status is CampaignStatus.canceled)

  unfoldable pub release_remediation : Datetime → DurableJob → Action (Option DurableJob)
  unfolding cancel_scheduled release_eligible campaign_of_job_is_canceled
  release_remediation current job =
      if not (job.job_type is JobType.remediation) || not (job.status is JobStatus.scheduled)
      then pure none
      else do
        canceled ← campaign_of_job_is_canceled job
        if canceled
            then (do cancel_scheduled current job; pure none)
            else release_eligible current job

  unfoldable pub release_scheduled_remediation_jobs : Datetime → Action (List DurableJob)
  unfolding release_remediation
  release_scheduled_remediation_jobs current = do
    jobs ← gets (λ s. values s.jobs)
    released ← collect_each jobs (release_remediation current)
    pure (somes released)

  -- `release_scheduled_snapshot_delete_jobs`.
  abbrev pub delete_is_due : Option RollbackSnapshot → Datetime → Bool
  delete_is_due none current = false
  delete_is_due (some snapshot) current = elim snapshot.delete_after [
    | none ↦ false
    | some due ↦ not_after due current
  ]

  unfoldable pub release_delete : Datetime → DurableJob → Action (Option DurableJob)
  release_delete current job =
      if not (job.job_type is JobType.snapshot_delete) || not (job.status is JobStatus.scheduled)
      then pure none
      else do
        snapshot ← find_snapshot env job
        if not (delete_is_due snapshot current) then pure none else do
          on_jobs (λ jobs. save_job jobs (released_job current job) none)
          pure (some (released_job current job))

  unfoldable pub release_scheduled_snapshot_delete_jobs : Datetime → Action (List DurableJob)
  unfolding release_delete
  release_scheduled_snapshot_delete_jobs current = do
    jobs ← gets (λ s. values s.jobs)
    released ← collect_each jobs (release_delete current)
    pure (somes released)
