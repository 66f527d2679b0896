-- ===== src/Service/Execution.antt =====
-- `_process_claimed_remediation` (service.py): what a worker does with a remediation job that it has
-- claimed. The methods change one job object, which the handler of an exception sees too: a step
-- that raises carries the job as it was then.
use aisys_adm.Prelude.{
  ℕ, String, true, false, not, Option, none, some, [], ◌∷◌, text_or, if◌then◌else◌,
}
use aisys_adm.Models.Enums.{RollbackSnapshotState}
use aisys_adm.Models.Words.{JobStatus, ExecutionState}
use aisys_adm.Models.Values.{Datetime, Json, JsonDict, get}
use aisys_adm.Models.Hosts.{Host}
use aisys_adm.Models.Snapshots.{RollbackSnapshot}
use aisys_adm.Models.Remediations.{Remediation, ExecutionResult}
use aisys_adm.Models.Jobs.{DurableJob}
use aisys_adm.Gate.Decision.{GateDecision}
use aisys_adm.Gate.Drift.{drift}
use aisys_adm.Gate.Execution.{snapshot_requirement}
use aisys_adm.Gate.Outcome.{execution_outcome}
use aisys_adm.Service.World.{
  World, Environment, Raised, Call, Action, ActionOr, Result, ok, err, pure, raise, ◌>>=◌, ◌>>◌,
  gets, raise_if, if_some,
}
use aisys_adm.Service.Records.{
  or_empty, now, audit, find_host, find_scan, find_remediation, save_remediation, save_snapshot,
  save_log_events,
}
use aisys_adm.Service.Plans.{trusted_execution_decision}
use aisys_adm.Service.Sync.{sync_campaigns_for_remediation}
use aisys_adm.Service.Failures.{assert_job_lease, save_claimed_job, await}
use aisys_adm.Service.Snapshots.{create_rollback_snapshot}
use aisys_adm.Service.Protection.{finish_snapshot_protected_execution}

-- An exception, and the job object when it was raised.
abbrev pub Stopped : Type 0
Stopped = Raised × DurableJob

abbrev pub Work : Type 0 → Type 0
Work A = ActionOr Stopped A

abbrev pub stopped_with :
    {A : Type 0} → DurableJob → Result Raised A × World → Result Stopped A × World
stopped_with job (ok a, w) = (ok a, w)
stopped_with job (err e, w) = (err (e, job), w)

-- A step while the job object is `job`.
unfoldable pub holding : {A : Type 0} → DurableJob → Action A → Work A
holding job m w = stopped_with job (m w)

abbrev pub at_phase : DurableJob → String → ℕ → Datetime → DurableJob
at_phase job name percent current = record job {
  current_phase = some name;
  progress_percent = percent;
  updated_at = current;
}

abbrev pub completed_job : DurableJob → JsonDict → Datetime → Datetime → DurableJob
completed_job job result completed_at updated_at = record job {
  status = JobStatus.completed;
  current_phase = some "completed";
  progress_percent = 100;
  result = result;
  completed_at = some completed_at;
  updated_at = updated_at;
  lease_owner = none;
  lease_expires_at = none;
}

abbrev pub state_of_snapshot : Option RollbackSnapshot → Option RollbackSnapshotState
state_of_snapshot none = none
state_of_snapshot (some snapshot) = some snapshot.state

module _ (env : Environment) where
  -- The plan as it is stored now, and its host: what the gate allows to run with this job.
  unfoldable pub require_eligible : DurableJob → Action (Remediation × Host)
  require_eligible job = do
    stored ← find_remediation job.remediation_id
    host ← find_host stored.host_id
    (eligibility, r) ← trusted_execution_decision env stored host (some job)
    if eligibility.allowed then pure (r, host) else do
      current ← now env
      save_remediation (record r { execution_state = ExecutionState.blocked; updated_at = current })
      raise (Raised.non_retryable eligibility.message eligibility.category)

  unfoldable pub raise_unless : GateDecision → Action (Unit {0})
  raise_unless decision =
      raise_if (not decision.allowed) (Raised.non_retryable decision.message decision.category)

  -- The host is scanned again, and has to be as it was when the plan was made.
  unfoldable pub check_drift : DurableJob → Remediation → Host → String → Action (Unit {0})
  check_drift job r host lease_owner = do
    scan ← find_scan r.scan_id
    original ← gets (λ s. get s.snapshots (or_empty scan.snapshot_id))
    if_some original (λ snapshot. pure tt) (raise_unless (drift none none))
    (current, events) ←
        await env (Call.collects host job.id) (λ n. env.collect n host) job.id lease_owner
    assert_job_lease env job.id lease_owner
    save_snapshot current
    save_log_events events
    raise_unless (drift original (some current))

  -- The job in its next phase, saved under the lease.
  unfoldable pub enter_phase : DurableJob → String → ℕ → String → Work DurableJob
  enter_phase job name percent lease_owner = do
    current ← holding job (now env)
    let entered = at_phase job name percent current
    holding entered (save_claimed_job env entered lease_owner)

  unfoldable pub protect :
      DurableJob → Remediation → Host → String → Work (DurableJob × Option RollbackSnapshot)
  unfolding enter_phase
  protect job r host lease_owner = do
    let requirement = snapshot_requirement host r
    holding job (raise_unless requirement.decision)
    if not requirement.required then pure (job, none) else do
      entered ← enter_phase job "snapshot_create" 25 lease_owner
      snapshot ← holding entered (do
        assert_job_lease env entered.id lease_owner
        created ← create_rollback_snapshot env entered r host lease_owner
        assert_job_lease env entered.id lease_owner
        pure created)
      pure (entered, some snapshot)

  -- The health checks after a change that succeeded under a snapshot.
  unfoldable pub finish :
      DurableJob
      → Remediation
      → Host
      → Option RollbackSnapshot
      → ExecutionResult
      → String
      → Work (DurableJob × Option RollbackSnapshot × ExecutionResult)
  unfolding enter_phase
  finish job r host none result lease_owner = pure (job, none, result)
  finish job r host (some snapshot) result lease_owner =
      if not result.success then pure (job, some snapshot, result) else do
        entered ← enter_phase job "post_reboot_health_check" 80 lease_owner
        (checked, kept) ← holding entered (do
          answer ←
              finish_snapshot_protected_execution env entered r host snapshot result lease_owner
          assert_job_lease env entered.id lease_owner
          pure answer)
        pure (entered, some kept, checked)

  -- The result is stored with the plan, and a failure is raised by the way the gate reads it.
  unfoldable pub keep_result :
      Remediation → Option RollbackSnapshot → ExecutionResult → Action Remediation
  keep_result r snapshot result = do
    save_log_events result.events
    current ← now env
    let outcome = execution_outcome env.lower result (state_of_snapshot snapshot)
    let stored = record r {
      result = some result;
      execution_state = outcome.remediation_state;
      updated_at = current;
    }
    save_remediation stored
    if result.success
        then pure stored
        else raise (
            if not outcome.decision.retryable
            then Raised.non_retryable outcome.decision.message outcome.decision.category
            else Raised.other outcome.decision.message)

  unfoldable pub complete_remediation :
      DurableJob → Remediation → ExecutionResult → String → Work DurableJob
  complete_remediation job r result lease_owner = do
    completed_at ← holding job (now env)
    updated_at ← holding job (now env)
    let done =
        completed_job job (("remediation_id", Json.text r.id) ∷ ("success", Json.bool true) ∷ [])
          completed_at updated_at
    saved ← holding done (save_claimed_job env done lease_owner)
    holding saved (do
      audit env (text_or r.approved_by "operator") "remediation.completed" "remediation" (some r.id)
          (("job_id", Json.text saved.id)
            ∷ ("reboot_performed", Json.bool result.reboot_performed)
            ∷ [])
      sync_campaigns_for_remediation env r.id false)
    pure saved

  -- The job enters its first phase and the plan is shown as running.
  unfoldable pub begin_remediation : DurableJob → Remediation → String → Work DurableJob
  begin_remediation job r lease_owner = do
    current ← holding job (now env)
    changed_at ← holding job (now env)
    let entered = at_phase job "state_drift_check" 10 current
    saved ← holding entered (save_claimed_job env entered lease_owner)
    holding saved (do
      save_remediation
          (record r { execution_state = ExecutionState.running; updated_at = changed_at })
      sync_campaigns_for_remediation env r.id false)
    pure saved

  -- The change that the gate has allowed is made.
  unfoldable pub run_change :
      DurableJob
      → Remediation
      → Host
      → String
      → Work (DurableJob × Remediation × Host × ExecutionResult)
  unfolding enter_phase
  run_change job r host lease_owner = do
    entered ← enter_phase job "ansible_execution" 30 lease_owner
    result ← holding entered (do
      assert_job_lease env entered.id lease_owner
      answer ←
          await env (Call.executes host r entered.id) (λ n. env.execute n host r) entered.id
            lease_owner
      assert_job_lease env entered.id lease_owner
      pure answer)
    pure (entered, r, host, result)

  -- The gate is asked once more, and then the change is made.
  unfoldable pub execute_change :
      DurableJob → String → Work (DurableJob × Remediation × Host × ExecutionResult)
  unfolding run_change require_eligible
  execute_change job lease_owner = do
    (r, host) ← holding job (require_eligible job)
    run_change job r host lease_owner

  unfoldable pub process_claimed_remediation :
      DurableJob → Remediation → Host → String → Work DurableJob
  process_claimed_remediation job r host lease_owner = do
    begun ← begin_remediation job r lease_owner
    holding begun (check_drift begun r host lease_owner)
    (drifted, drifted_host) ← holding begun (require_eligible begun)
    (protected, snapshot) ← protect begun drifted drifted_host lease_owner
    (executed, current, current_host, result) ← execute_change protected lease_owner
    (finished, kept, final) ← finish executed current current_host snapshot result lease_owner
    stored ← holding finished (keep_result current kept final)
    complete_remediation finished stored final lease_owner
