-- ===== src/Service/Kept/Workers.antt =====
-- Workers that take a job (service.py): what every stable invariant withstands.
use aisys_adm.Prelude.{String, Bool, Option}
use aisys_adm.Models.Words.{ExecutionState}
use aisys_adm.Models.Hosts.{Host}
use aisys_adm.Models.Snapshots.{RollbackSnapshot}
use aisys_adm.Models.Remediations.{Remediation}
use aisys_adm.Models.Records.{SnapshotOperationResult}
use aisys_adm.Models.Jobs.{DurableJob}
use aisys_adm.Gate.Decision.{GateDecision}
use aisys_adm.Service.World.{World, Environment, Raised, Action, Result, ok, err}
use aisys_adm.Service.Execution.{Work, Stopped}
use aisys_adm.Service.Work.{
  or_handle, handled, campaign_is_canceled, cancel_queued, put_off, claim_lease, refuse, stop_work,
  work_on, take_on, process_remediation,
}
use aisys_adm.Service.Deletion.{
  keep_deletion, process_claimed_snapshot_delete, stop_deletion, delete_claimed,
  process_snapshot_delete,
}
use aisys_adm.Service.Recovery.{find_snapshot}
use aisys_adm.Service.Kept.Rules.{Stable, Keeps, gets-Keeps}
use aisys_adm.Service.Kept.Records.{find_job-Keeps}
use aisys_adm.Service.Kept.Plans.{plan_steps}
use aisys_adm.Service.Kept.Executions.{holding-Keeps, enter_phase-Keeps}
use aisys_adm.Service.Kept.Changed.{process_claimed_remediation-Keeps}

module _ {env : Environment} {I : World → Type 0} (stable : Stable env I) where
  handled_kept :
      {A : Type 0} (x : Result Stopped A × World) (h : Raised → DurableJob → Action A)
      → I x.1
      → ((e : Raised) (job : DurableJob) → Keeps I (h e job))
      → I (or_handle x h).1
  handled_kept (ok a, w) h i k = i
  handled_kept (err (e, job), w) h i k = (k e job).runs w i

  handled-Keeps :
      {A : Type 0} {m : Work A} {h : Raised → DurableJob → Action A}
      → Keeps I m
      → ((e : Raised) (job : DurableJob) → Keeps I (h e job))
      → Keeps I (handled m h)
  unfolding handled
  handled-Keeps {m = m} {h = h} p q = record { runs = λ w i. handled_kept (m w) h (p.runs w i) q }

  campaign_is_canceled-Keeps : (job : DurableJob) → Keeps I (campaign_is_canceled env job)
  unfolding campaign_is_canceled
  campaign_is_canceled-Keeps job = search plan_steps depth 24

  cancel_queued-Keeps : (job : DurableJob) (r : Remediation) → Keeps I (cancel_queued env job r)
  unfolding cancel_queued
  cancel_queued-Keeps job r = search plan_steps depth 24

  put_off-Keeps : (job : DurableJob) (r : Remediation) → Keeps I (put_off env job r)
  unfolding put_off
  put_off-Keeps job r = search plan_steps depth 24

  claim_lease-Keeps : (id owner : String) → Keeps I (claim_lease env id owner)
  unfolding claim_lease
  claim_lease-Keeps id owner = search plan_steps depth 24

  refuse-Keeps :
      (job : DurableJob) (r : Remediation) (host : Host) (owner : String) (state : ExecutionState)
      (decision : GateDecision) (stop : Bool)
      → Keeps I (refuse env job r host owner state decision stop)
  unfolding refuse
  refuse-Keeps job r host owner state decision stop = search plan_steps depth 24

  stop_work-Keeps :
      (id : String) (r : Remediation) (host : Host) (owner : String) (e : Raised) (job : DurableJob)
      → Keeps I (stop_work env id r host owner e job)
  unfolding stop_work
  stop_work-Keeps id r host owner Raised.job_lease_lost job = find_job-Keeps id
  stop_work-Keeps id r host owner (Raised.value_error m) job = search plan_steps depth 24
  stop_work-Keeps id r host owner (Raised.gate_denied d) job = search plan_steps depth 24
  stop_work-Keeps id r host owner (Raised.non_retryable m c) job = search plan_steps depth 24
  stop_work-Keeps id r host owner (Raised.other m) job = search plan_steps depth 24

  work_on-Keeps : (job : DurableJob) (owner : String) → Keeps I (work_on env job owner)
  unfolding work_on
  work_on-Keeps job owner =
      search
        (
          plan_steps, refuse-Keeps, handled-Keeps, process_claimed_remediation-Keeps,
          stop_work-Keeps,
        )
        depth 24

  take_on-Keeps : (id : String) (worker : Option String) → Keeps I (take_on env id worker)
  unfolding take_on
  take_on-Keeps id worker = search (plan_steps, claim_lease-Keeps, work_on-Keeps) depth 24

  pub process_remediation-Keeps :
      (id : String) (worker : Option String) → Keeps I (process_remediation env id worker)
  unfolding process_remediation
  process_remediation-Keeps id worker =
      search
        (plan_steps, campaign_is_canceled-Keeps, cancel_queued-Keeps, put_off-Keeps, take_on-Keeps)
        depth 24

  pub find_snapshot-Keeps : (job : DurableJob) → Keeps I (find_snapshot env job)
  unfolding find_snapshot
  find_snapshot-Keeps job = gets-Keeps _

  keep_deletion-Keeps :
      (job : DurableJob) (x : RollbackSnapshot) (host : Host) (result : SnapshotOperationResult)
      → Keeps I (keep_deletion env job x host result)
  unfolding keep_deletion
  keep_deletion-Keeps job x host result = search plan_steps depth 24

  process_claimed_snapshot_delete-Keeps :
      (job : DurableJob) (x : RollbackSnapshot) (host : Host) (owner : String)
      → Keeps I (process_claimed_snapshot_delete env job x host owner)
  unfolding process_claimed_snapshot_delete
  process_claimed_snapshot_delete-Keeps job x host owner =
      search (plan_steps, holding-Keeps, enter_phase-Keeps, keep_deletion-Keeps) depth 24

  stop_deletion-Keeps :
      (id : String) (x : RollbackSnapshot) (host : Host) (owner : String) (e : Raised)
      (job : DurableJob)
      → Keeps I (stop_deletion env id x host owner e job)
  unfolding stop_deletion
  stop_deletion-Keeps id x host owner Raised.job_lease_lost job = find_job-Keeps id
  stop_deletion-Keeps id x host owner (Raised.value_error m) job = search plan_steps depth 24
  stop_deletion-Keeps id x host owner (Raised.gate_denied d) job = search plan_steps depth 24
  stop_deletion-Keeps id x host owner (Raised.non_retryable m c) job = search plan_steps depth 24
  stop_deletion-Keeps id x host owner (Raised.other m) job = search plan_steps depth 24

  delete_claimed-Keeps :
      (job : DurableJob) (owner : String) → Keeps I (delete_claimed env job owner)
  unfolding delete_claimed
  delete_claimed-Keeps job owner =
      search
        (
          plan_steps, find_snapshot-Keeps, handled-Keeps, process_claimed_snapshot_delete-Keeps,
          stop_deletion-Keeps,
        )
        depth 24

  pub process_snapshot_delete-Keeps :
      (id : String) (worker : Option String) → Keeps I (process_snapshot_delete env id worker)
  unfolding process_snapshot_delete
  process_snapshot_delete-Keeps id worker =
      search (plan_steps, claim_lease-Keeps, delete_claimed-Keeps) depth 24
