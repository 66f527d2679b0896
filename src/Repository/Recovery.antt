-- ===== src/Repository/Recovery.antt =====
-- `recover_expired_jobs` of `InMemoryRepository` (repository.py).
use aisys_adm.Prelude.{String, not, Option, none, some, List, [], ◌∷◌, leb, if◌then◌else◌}
use aisys_adm.Models.Words.{JobStatus}
use aisys_adm.Models.Values.{Datetime, Json, put}
use aisys_adm.Models.Jobs.{DurableJob}
use aisys_adm.Repository.Leases.{lease_expiration_failure, terminalize_exhausted_job}
use aisys_adm.Repository.Jobs.{Jobs, store, is_stale}

abbrev pub phase_json : Option String → Json
phase_json none = Json.null
phase_json (some phase) = Json.text phase

-- The lease is taken away, and the phase that the worker had reached is kept in the result.
unfoldable pub unleased : DurableJob → Datetime → DurableJob
unleased job recovered_at = record job {
  last_failure = some (lease_expiration_failure job recovered_at);
  lease_owner = none;
  lease_expires_at = none;
  updated_at = recovered_at;
  result = put job.result "recovered_from_phase" (phase_json job.current_phase);
}

unfoldable pub recovered_job : DurableJob → Datetime → DurableJob
recovered_job stored recovered_at =
    let job = unleased stored recovered_at in
    if leb stored.max_attempts stored.attempts
    then terminalize_exhausted_job job recovered_at
    else record job { status = JobStatus.queued; current_phase = some "retry_scheduled" }

pub record Recovered : Type 0 where
  pub jobs : Jobs
  pub recovered : List DurableJob
  pub exhausted : List DurableJob

-- The loop over the jobs that were stored when it began.
unfoldable pub recover_loop : List DurableJob → Datetime → Jobs → Recovered
recover_loop [] recovered_at jobs = record { jobs = jobs; recovered = []; exhausted = [] }
recover_loop (stored ∷ rest) recovered_at jobs =
    let job = recovered_job stored recovered_at in
    let stale = is_stale stored recovered_at in
    let done = recover_loop rest recovered_at (if stale then store jobs job else jobs) in
    if not stale
    then done
    else if leb stored.max_attempts stored.attempts
    then record done { exhausted = job ∷ done.exhausted }
    else record done { recovered = job ∷ done.recovered }

abbrev pub values : Jobs → List DurableJob
values [] = []
values ((key, job) ∷ jobs) = job ∷ values jobs

unfoldable pub recover_expired_jobs : Jobs → Datetime → Recovered
unfolding recover_loop
recover_expired_jobs jobs recovered_at = recover_loop (values jobs) recovered_at jobs
