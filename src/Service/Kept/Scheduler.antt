-- ===== src/Service/Kept/Scheduler.antt =====
-- What the scheduler does with jobs (service.py): what every stable invariant withstands.
use aisys_adm.Prelude.{String, true, Option, none, some}
use aisys_adm.Models.Words.{JobType}
use aisys_adm.Models.Values.{Datetime}
use aisys_adm.Models.Snapshots.{RollbackSnapshot}
use aisys_adm.Models.Remediations.{Remediation}
use aisys_adm.Models.Scans.{ScanJob}
use aisys_adm.Models.Jobs.{DurableJob}
use aisys_adm.Service.World.{World, Environment}
use aisys_adm.Service.Recovery.{
  save_scan?, recover_remediation, reschedule_delete, recover_subject, recover_one,
  exhaust_remediation, exhaust_delete, exhaust_subject, exhaust_one, recover_expired_jobs,
}
use aisys_adm.Service.Kept.Rules.{Stable, Keeps, each-Keeps, collect_each-Keeps, pure-Keeps}
use aisys_adm.Service.Kept.Jobs.{recover_expired_jobs-Stores}
use aisys_adm.Service.Kept.Plans.{plan_steps}
use aisys_adm.Service.Releases.{
  cancel_scheduled, release_if_open, release_eligible, campaign_of_job_is_canceled,
  release_remediation, release_scheduled_remediation_jobs, release_delete,
  release_scheduled_snapshot_delete_jobs,
}
use aisys_adm.Service.Kept.Workers.{find_snapshot-Keeps}

module _ {env : Environment} {I : World → Type 0} (stable : Stable env I) where
  save_scan?-Keeps :
      (x : Option ScanJob) (status : String) (error : Option String) (t : Datetime)
      → Keeps I (save_scan? x status error t)
  unfolding save_scan?
  save_scan?-Keeps none status error t = pure-Keeps tt
  save_scan?-Keeps (some x) status error t = search plan_steps

  recover_remediation-Keeps :
      (t : Datetime) (job : DurableJob) (r : Option Remediation)
      → Keeps I (recover_remediation env t job r)
  unfolding recover_remediation
  recover_remediation-Keeps t job none = pure-Keeps true
  recover_remediation-Keeps t job (some r) = search plan_steps depth 24

  reschedule_delete-Keeps :
      (t : Datetime) (x : Option RollbackSnapshot) → Keeps I (reschedule_delete env t x)
  unfolding reschedule_delete
  reschedule_delete-Keeps t none = pure-Keeps tt
  reschedule_delete-Keeps t (some x) = search plan_steps depth 24

  recover_subject-Keeps :
      (t : Datetime) (job : DurableJob) (kind : JobType) → Keeps I (recover_subject env t job kind)
  unfolding recover_subject
  recover_subject-Keeps t job JobType.scan = search (plan_steps, save_scan?-Keeps) depth 24
  recover_subject-Keeps t job JobType.remediation =
      search (plan_steps, recover_remediation-Keeps) depth 24
  recover_subject-Keeps t job JobType.snapshot_delete =
      search (plan_steps, find_snapshot-Keeps, reschedule_delete-Keeps) depth 24

  recover_one-Keeps : (t : Datetime) (job : DurableJob) → Keeps I (recover_one env t job)
  unfolding recover_one
  recover_one-Keeps t job = search (plan_steps, recover_subject-Keeps) depth 24

  exhaust_remediation-Keeps :
      (t : Datetime) (job : DurableJob) (r : Option Remediation)
      → Keeps I (exhaust_remediation env t job r)
  unfolding exhaust_remediation
  exhaust_remediation-Keeps t job none = pure-Keeps tt
  exhaust_remediation-Keeps t job (some r) = search plan_steps depth 24

  exhaust_delete-Keeps :
      (t : Datetime) (job : DurableJob) (x : Option RollbackSnapshot)
      → Keeps I (exhaust_delete env t job x)
  unfolding exhaust_delete
  exhaust_delete-Keeps t job none = pure-Keeps tt
  exhaust_delete-Keeps t job (some x) = search plan_steps depth 24

  exhaust_subject-Keeps :
      (t : Datetime) (job : DurableJob) (kind : JobType) → Keeps I (exhaust_subject env t job kind)
  unfolding exhaust_subject
  exhaust_subject-Keeps t job JobType.scan = search (plan_steps, save_scan?-Keeps) depth 24
  exhaust_subject-Keeps t job JobType.remediation =
      search (plan_steps, exhaust_remediation-Keeps) depth 24
  exhaust_subject-Keeps t job JobType.snapshot_delete =
      search (plan_steps, find_snapshot-Keeps, exhaust_delete-Keeps) depth 24

  exhaust_one-Keeps : (t : Datetime) (job : DurableJob) → Keeps I (exhaust_one env t job)
  unfolding exhaust_one
  exhaust_one-Keeps t job = search (plan_steps, exhaust_subject-Keeps) depth 24

  pub recover_expired_jobs-Keeps : (t : Datetime) → Keeps I (recover_expired_jobs env t)
  unfolding recover_expired_jobs
  recover_expired_jobs-Keeps t =
      search
        (
          plan_steps, recover_expired_jobs-Stores, collect_each-Keeps, recover_one-Keeps,
          each-Keeps, exhaust_one-Keeps,
        )
        depth 24

  cancel_scheduled-Keeps : (t : Datetime) (job : DurableJob) → Keeps I (cancel_scheduled env t job)
  unfolding cancel_scheduled
  cancel_scheduled-Keeps t job = search plan_steps depth 24

  release_if_open-Keeps :
      (t : Datetime) (job : DurableJob) (r : Remediation) → Keeps I (release_if_open env t job r)
  unfolding release_if_open
  release_if_open-Keeps t job r = search plan_steps depth 24

  release_eligible-Keeps : (t : Datetime) (job : DurableJob) → Keeps I (release_eligible env t job)
  unfolding release_eligible
  release_eligible-Keeps t job = search (plan_steps, release_if_open-Keeps) depth 24

  campaign_of_job_is_canceled-Keeps :
      (job : DurableJob) → Keeps I (campaign_of_job_is_canceled env job)
  unfolding campaign_of_job_is_canceled
  campaign_of_job_is_canceled-Keeps job = search plan_steps depth 24

  release_remediation-Keeps :
      (t : Datetime) (job : DurableJob) → Keeps I (release_remediation env t job)
  unfolding release_remediation
  release_remediation-Keeps t job =
      search
        (
          plan_steps, campaign_of_job_is_canceled-Keeps, cancel_scheduled-Keeps,
          release_eligible-Keeps,
        )
        depth 24

  pub release_scheduled_remediation_jobs-Keeps :
      (t : Datetime) → Keeps I (release_scheduled_remediation_jobs env t)
  unfolding release_scheduled_remediation_jobs
  release_scheduled_remediation_jobs-Keeps t =
      search (plan_steps, collect_each-Keeps, release_remediation-Keeps) depth 24

  release_delete-Keeps : (t : Datetime) (job : DurableJob) → Keeps I (release_delete env t job)
  unfolding release_delete
  release_delete-Keeps t job = search (plan_steps, find_snapshot-Keeps) depth 24

  pub release_scheduled_snapshot_delete_jobs-Keeps :
      (t : Datetime) → Keeps I (release_scheduled_snapshot_delete_jobs env t)
  unfolding release_scheduled_snapshot_delete_jobs
  release_scheduled_snapshot_delete_jobs-Keeps t =
      search (plan_steps, collect_each-Keeps, release_delete-Keeps) depth 24
