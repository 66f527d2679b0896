-- ===== src/Repository/Attempts.antt =====
-- How often a job runs, and how it ends (`claim_job`, `heartbeat_job` and `cancel_job` of
-- repository.py).
use aisys_adm.Prelude.{
  ℕ, ◌+◌, ◌≤◌, String, Bool, true, false, some, ◌≡◌, List, [], ◌∷◌, ◌==◌, subst, sym, ap, ◌∙◌,
  arith, eq_iff, ◌is_in◌, if◌then◌else◌,
}
use aisys_adm.Models.Words.{JobStatus, job_status_enum}
use aisys_adm.Models.Values.{Datetime, get, is_some}
use aisys_adm.Models.Jobs.{DurableJob}
use aisys_adm.Repository.Leases.{terminalize_exhausted_job}
use aisys_adm.Repository.Jobs.{Jobs, is_stale, holds_lease, claimed, claim_stored, claim_job}
use aisys_adm.Repository.Operations.{Operation, apply, addressed, job_step, IsKeyed}
use aisys_adm.Repository.Updates.{changed}
use aisys_adm.Repository.Refined.{apply_refines, apply-IsKeyed}

-- 1 where the operation is a claim of the job that succeeds, else 0.
abbrev pub claims : String → Operation → Jobs → ℕ
claims job_id (Operation.claim id owner now lease) jobs =
    if id == job_id then (if is_some (claim_job jobs id owner now lease).0 then 1 else 0) else 0
claims job_id (Operation.heartbeat id owner now lease) jobs = 0
claims job_id (Operation.cancel id now allowed phase) jobs = 0

abbrev pub run : List Operation → Jobs → Jobs
run [] jobs = jobs
run (op ∷ ops) jobs = run ops (apply op jobs)

-- How many claims of the job succeed as the operations run.
abbrev pub successful_claims : String → List Operation → Jobs → ℕ
successful_claims id [] jobs = 0
successful_claims id (op ∷ ops) jobs = claims id op jobs + successful_claims id ops (apply op jobs)

-- The operation cancels jobs in this job's status.
abbrev pub job_cancels : Operation → DurableJob → Bool
job_cancels (Operation.claim id owner now lease) job = false
job_cancels (Operation.heartbeat id owner now lease) job = false
job_cancels (Operation.cancel id now allowed phase) job = job.status is_in allowed

-- A job within its attempts, after a step that starts it `n` times.
record Spent (job next : DurableJob) (n : ℕ) : Type 0 where
  counted : next.attempts ≡ job.attempts + n
  within : next.attempts ≤ next.max_attempts
  same_limit : next.max_attempts ≡ job.max_attempts

claim-Spent :
    (jobs : Jobs) (id owner : String) (now lease : Datetime) (job : DurableJob)
    → job.attempts ≤ job.max_attempts
    → Spent job
        (job_step (Operation.claim id owner now lease) job)
        (if is_some (claim_stored jobs (some job) owner now lease).0 then 1 else 0)
unfolding claim_stored job_step claimed terminalize_exhausted_job
claim-Spent jobs id owner now lease job h = ground arith

claim_job-Spent :
    (jobs : Jobs) (id owner : String) (now lease : Datetime) (job : DurableJob)
    → get jobs id ≡ some job
    → job.attempts ≤ job.max_attempts
    → Spent job
        (job_step (Operation.claim id owner now lease) job)
        (if is_some (claim_job jobs id owner now lease).0 then 1 else 0)
unfolding claim_job
claim_job-Spent jobs id owner now lease job found h =
    subst
      (λ o.
        Spent job (job_step (Operation.claim id owner now lease) job)
          (if is_some (claim_stored jobs o owner now lease).0 then 1 else 0))
      (sym found) (claim-Spent jobs id owner now lease job h)

-- What one operation does to the attempts of the job under a key.
step-Spent :
    (op : Operation) (jobs : Jobs) (id : String) (job : DurableJob)
    → get jobs id ≡ some job
    → job.attempts ≤ job.max_attempts
    → Spent job (if addressed op == id then job_step op job else job) (claims id op jobs)
unfolding job_step
step-Spent (Operation.claim key owner now lease) jobs id job found h =
    ground (arith, eq_iff key id, claim_job-Spent jobs id owner now lease job found h)
step-Spent (Operation.heartbeat key owner now lease) jobs id job found h = ground arith
step-Spent (Operation.cancel key now allowed phase) jobs id job found h = ground arith

-- In every run of claims, heartbeats and cancellations, on jobs under their own identifiers, a job
-- that is within its attempts is claimed at most as often as it has attempts left.
pub claims_bounded :
    (ops : List Operation) (jobs : Jobs) (id : String) (job : DurableJob)
    → IsKeyed jobs
    → get jobs id ≡ some job
    → job.attempts ≤ job.max_attempts
    → job.attempts + successful_claims id ops jobs ≤ job.max_attempts
claims_bounded [] jobs id job keyed found h = ground arith
claims_bounded (op ∷ ops) jobs id job keyed found h =
    let next = if addressed op == id then job_step op job else job in
    let spent = step-Spent op jobs id job found h in
    let later =
      claims_bounded ops (apply op jobs) id next (apply-IsKeyed op jobs keyed)
        (apply_refines op jobs id keyed ∙ ap (changed (addressed op) (job_step op) id) found)
        spent.within in
    omega (arith, later, spent.counted, spent.same_limit)

ended_step :
    (op : Operation) (id : String) (job : DurableJob)
    → job.status is_in (JobStatus.completed ∷ JobStatus.failed ∷ JobStatus.canceled ∷ []) ≡ true
    → job_cancels op job ≡ false
    → (if addressed op == id then job_step op job else job) ≡ job
unfolding job_step is_stale holds_lease
ended_step (Operation.claim key owner now lease) id job ended spared = ground arith
ended_step (Operation.heartbeat key owner now lease) id job ended spared = ground arith
ended_step (Operation.cancel key now allowed phase) id job ended spared = ground arith

-- On jobs under their own identifiers, no claim and no heartbeat changes a job that has ended, and
-- no cancellation that leaves out its status does.
pub ended_job_stays :
    (op : Operation) (jobs : Jobs) (id : String) (job : DurableJob)
    → IsKeyed jobs
    → get jobs id ≡ some job
    → job.status is_in (JobStatus.completed ∷ JobStatus.failed ∷ JobStatus.canceled ∷ []) ≡ true
    → job_cancels op job ≡ false
    → get (apply op jobs) id ≡ some job
ended_job_stays op jobs id job keyed found ended spared =
    apply_refines op jobs id keyed
    ∙ ap (changed (addressed op) (job_step op) id) found
    ∙ ap some (ended_step op id job ended spared)
