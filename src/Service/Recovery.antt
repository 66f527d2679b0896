-- ===== src/Service/Recovery.antt =====
-- Jobs whose leases have expired: `recover_expired_jobs` (service.py).
use aisys_adm.Prelude.{
  String, Bool, true, false, not, Option, none, some, List, [], ◌∷◌, ◌is◌, if◌then◌else◌,
}
use aisys_adm.Models.Enums.{
  RollbackSnapshotState, rollback_snapshot_state_enum, campaign_status_enum,
}
use aisys_adm.Models.Words.{job_status_enum, JobType, job_type_enum}
use aisys_adm.Models.Values.{Datetime, Json, get}
use aisys_adm.Models.Snapshots.{RollbackSnapshot}
use aisys_adm.Models.Remediations.{Remediation}
use aisys_adm.Models.Scans.{ScanJob}
use aisys_adm.Models.Jobs.{DurableJob, JobFailure}
use aisys_adm.Gate.Outcome.{phase_text, stale_recovery}
use aisys_adm.Repository.Recovery.{recover_expired_jobs as recover_stored_jobs}
use aisys_adm.Service.World.{Environment, Action, pure, ◌>>=◌, ◌>>◌, gets, when, each, collect_each}
use aisys_adm.Service.Records.{
  or_empty, audit, on_jobs, save_remediation, save_scan, save_rollback_snapshot,
}
use aisys_adm.Service.Sync.{sync_campaigns_for_remediation}
use aisys_adm.Service.Failures.{fail_job, record_terminal_job_failure}

-- The jobs that a loop over them keeps.
abbrev pub somes {ℓ} : {A : Type ℓ} → List (Option A) → List A
somes [] = []
somes (none ∷ xs) = somes xs
somes (some x ∷ xs) = x ∷ somes xs

abbrev pub failure_text : Option JobFailure → Option String
failure_text none = none
failure_text (some failure) = some failure.message

unfoldable pub save_scan? : Option ScanJob → String → Option String → Datetime → Action (Unit {0})
save_scan? none status error current = pure tt
save_scan? (some scan) status error current =
    save_scan (record scan { status = status; error = error; updated_at = current })

module _ (env : Environment) where
  -- str(job.result.get("rollback_snapshot_id") or "")
  abbrev pub snapshot_id_of : DurableJob → String
  snapshot_id_of job = phase_text env.show (get job.result "rollback_snapshot_id") none

  unfoldable pub find_snapshot : DurableJob → Action (Option RollbackSnapshot)
  find_snapshot job = gets (λ s. get s.rollback_snapshots (snapshot_id_of job))

  -- The plan of a recovered job, and whether the job may run again.
  unfoldable pub recover_remediation : Datetime → DurableJob → Option Remediation → Action Bool
  recover_remediation current job none = pure true
  recover_remediation current job (some r) = do
    let recovery = stale_recovery env.show job false
    save_remediation
        (record r { execution_state = recovery.remediation_state; updated_at = current })
    if recovery.dispatch then pure true else do
      fail_job env job recovery.decision.message r.host_id none false recovery.decision.category
      sync_campaigns_for_remediation env r.id true
      pure false

  unfoldable pub reschedule_delete : Datetime → Option RollbackSnapshot → Action (Unit {0})
  reschedule_delete current none = pure tt
  reschedule_delete current (some snapshot) =
      when (snapshot.state is RollbackSnapshotState.delete_failed) (
        save_rollback_snapshot (record snapshot {
          state = RollbackSnapshotState.delete_scheduled;
          updated_at = current;
        }))

  -- What a recovered job is about is brought back, and the answer is whether to dispatch the job.
  unfoldable pub recover_subject : Datetime → DurableJob → JobType → Action Bool
  unfolding recover_remediation reschedule_delete
  recover_subject current job JobType.scan = do
    scan ← gets (λ s. get s.scans (or_empty job.scan_id))
    save_scan? scan "queued" (failure_text job.last_failure) current
    pure true
  recover_subject current job JobType.remediation = do
    r ← gets (λ s. get s.remediations (or_empty job.remediation_id))
    recover_remediation current job r
  recover_subject current job JobType.snapshot_delete = do
    snapshot ← find_snapshot job
    reschedule_delete current snapshot
    pure true

  unfoldable pub recover_one : Datetime → DurableJob → Action (Option DurableJob)
  unfolding recover_subject
  recover_one current job = do
    dispatch ← recover_subject current job job.job_type
    if not dispatch then pure none else do
      audit env "scheduler" "job.lease_recovered" "job" (some job.id)
          (("attempt", Json.num job.attempts) ∷ [])
      pure (some job)

  unfoldable pub exhaust_remediation :
      Datetime → DurableJob → Option Remediation → Action (Unit {0})
  exhaust_remediation current job none = pure tt
  exhaust_remediation current job (some r) =
      let recovery = stale_recovery env.show job true in
      save_remediation
        (record r { execution_state = recovery.remediation_state; updated_at = current })

  unfoldable pub exhaust_delete :
      Datetime → DurableJob → Option RollbackSnapshot → Action (Unit {0})
  exhaust_delete current job none = pure tt
  exhaust_delete current job (some snapshot) = save_rollback_snapshot (record snapshot {
    state = RollbackSnapshotState.delete_failed;
    failure_summary = job.error;
    updated_at = current;
  })

  unfoldable pub exhaust_subject : Datetime → DurableJob → JobType → Action (Unit {0})
  unfolding exhaust_remediation exhaust_delete
  exhaust_subject current job JobType.scan = do
    scan ← gets (λ s. get s.scans (or_empty job.scan_id))
    save_scan? scan "failed" job.error current
  exhaust_subject current job JobType.remediation = do
    r ← gets (λ s. get s.remediations (or_empty job.remediation_id))
    exhaust_remediation current job r
  exhaust_subject current job JobType.snapshot_delete = do
    snapshot ← find_snapshot job
    exhaust_delete current job snapshot

  unfoldable pub exhaust_one : Datetime → DurableJob → Action (Unit {0})
  unfolding exhaust_subject
  exhaust_one current job = do
    exhaust_subject current job job.job_type
    record_terminal_job_failure env job job.host_id

  -- The jobs whose leases have run out at `current`; the answer lists those to dispatch again.
  unfoldable pub recover_expired_jobs : Datetime → Action (List DurableJob)
  unfolding recover_one exhaust_one
  recover_expired_jobs current = do
    (recovered, exhausted) ← on_jobs (λ jobs.
        let done = recover_stored_jobs jobs current in
        ((done.recovered, done.exhausted), done.jobs))
    dispatchable ← collect_each recovered (recover_one current)
    each exhausted (exhaust_one current)
    pure (somes dispatchable)
