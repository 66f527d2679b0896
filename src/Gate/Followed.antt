-- ===== src/Gate/Followed.antt =====
-- When work is tried again or stopped: `execution_outcome`, and `stale_recovery` after
-- `recover_expired_jobs` (trusted_change.py, repository.py).
use aisys_adm.Prelude.{
  String, Bool, true, false, not, leb, ◌&&◌, ◌++◌, List, keep_if, Option, ◌≡◌, ◌↔◌, ◌⊎◌, mem_text,
  text_or, arith,
}
use aisys_adm.Models.Enums.{RollbackSnapshotState, rollback_snapshot_state_enum}
use aisys_adm.Models.Words.{JobStatus, job_status_enum}
use aisys_adm.Models.Values.{Datetime, Json}
use aisys_adm.Models.Jobs.{DurableJob}
use aisys_adm.Models.Remediations.{ExecutionResult}
use aisys_adm.Repository.Recovery.{Recovered}
use aisys_adm.Repository.Jobs.{Jobs, is_stale}
use aisys_adm.Gate.Outcome.{
  under_snapshot, failure_is_non_retryable, execution_outcome, mutating_phases, stale_recovery,
}

-- What may be tried again: a failure that changed nothing, before any snapshot, whose summary is not
-- one of those that a second try cannot mend.
pub record IsRetryable (lower : String → String) (result : ExecutionResult)
    (snapshot_state : Option RollbackSnapshotState) : Type 0 where
  pub failed : result.success ≡ false
  pub unchanged : result.changed ≡ false
  pub no_snapshot : under_snapshot snapshot_state ≡ false
  pub transient : failure_is_non_retryable lower result.summary ≡ false

-- A failure that cannot be tried again.
abbrev pub IsFinal : (String → String) → ExecutionResult → Option RollbackSnapshotState → Type 0
IsFinal lower result snapshot_state =
    (result.success ≡ false)
    × ((result.changed ≡ true)
        ⊎ ((under_snapshot snapshot_state ≡ true)
            ⊎ (failure_is_non_retryable lower result.summary ≡ true)))

-- An execution completes its job exactly when it succeeded and queues it again exactly when it may be
-- tried again. It fails the job and stops the remaining hosts of the campaign exactly when it did not
-- succeed and has changed the host, came under a snapshot, or failed for good.
pub outcome_exact :
    (lower : String → String) (result : ExecutionResult)
    (snapshot_state : Option RollbackSnapshotState)
    → let outcome = execution_outcome lower result snapshot_state in
      (outcome.job_status ≡ JobStatus.completed ↔ result.success ≡ true)
      × (outcome.job_status ≡ JobStatus.queued ↔ IsRetryable lower result snapshot_state)
      × (outcome.job_status ≡ JobStatus.failed ↔ IsFinal lower result snapshot_state)
      × (outcome.stop_remaining_hosts ≡ true ↔ IsFinal lower result snapshot_state)
unfolding execution_outcome
outcome_exact lower result snapshot_state = ground arith

-- A job whose worker is gone and may be tried again.
abbrev pub may_try_again : DurableJob → Datetime → Bool
may_try_again job now =
    is_stale job now
    && (not (leb job.max_attempts job.attempts)
        && not (mem_text (text_or job.current_phase "") mutating_phases))

-- The jobs of a recovery that the gate lets run again, as the service asks it: those that were
-- recovered have attempts left, and those that were exhausted have not.
abbrev pub dispatched : (Json → String) → Recovered → List DurableJob
dispatched show done =
    keep_if (λ (job : DurableJob). (stale_recovery show job false).dispatch) done.recovered
    ++ keep_if (λ (job : DurableJob). (stale_recovery show job true).dispatch) done.exhausted

module _ (show : Json → String) where
  abbrev runs_again : DurableJob → Bool
  runs_again job = (stale_recovery show job false).dispatch
