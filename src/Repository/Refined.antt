-- ===== src/Repository/Refined.antt =====
-- The operations on the store are steps of single jobs (`claim_job`, `heartbeat_job` and
-- `cancel_job` of repository.py).
use aisys_adm.Prelude.{String, Option, none, some, ◌≡◌, ◌⊎◌, List, refl, sym, ◌∙◌, arith}
use aisys_adm.Models.Words.{JobStatus, job_status_enum}
use aisys_adm.Models.Values.{Datetime, get}
use aisys_adm.Models.Jobs.{DurableJob}
use aisys_adm.Repository.Leases.{terminalize_exhausted_job}
use aisys_adm.Repository.Jobs.{
  Jobs, store, claimed, claim_stored, claim_job, heartbeat_stored, heartbeat_job, cancel_stored,
  cancel_job,
}
use aisys_adm.Repository.Operations.{Operation, apply, addressed, job_step, IsKeyed}
use aisys_adm.Repository.Updates.{changed, missing, finish}

pub job_step_id : (op : Operation) (job : DurableJob) → (job_step op job).id ≡ job.id
unfolding job_step claimed terminalize_exhausted_job
job_step_id (Operation.claim id owner now lease) job = ground arith
job_step_id (Operation.heartbeat id owner now lease) job = ground arith
job_step_id (Operation.cancel id now allowed phase) job = ground arith

claim_form :
    (jobs : Jobs) (id owner : String) (now lease : Datetime) (job : DurableJob)
    → ((claim_stored jobs (some job) owner now lease).1
        ≡ store jobs (job_step (Operation.claim id owner now lease) job))
      ⊎ (((claim_stored jobs (some job) owner now lease).1 ≡ jobs)
          × (job_step (Operation.claim id owner now lease) job ≡ job))
unfolding claim_stored job_step
claim_form jobs id owner now lease job = ground arith

heartbeat_form :
    (jobs : Jobs) (id owner : String) (now lease : Datetime) (job : DurableJob)
    → ((heartbeat_stored jobs (some job) owner now lease).1
        ≡ store jobs (job_step (Operation.heartbeat id owner now lease) job))
      ⊎ (((heartbeat_stored jobs (some job) owner now lease).1 ≡ jobs)
          × (job_step (Operation.heartbeat id owner now lease) job ≡ job))
unfolding heartbeat_stored job_step
heartbeat_form jobs id owner now lease job = ground arith

cancel_form :
    (jobs : Jobs) (id phase : String) (now : Datetime) (allowed : List JobStatus) (job : DurableJob)
    → ((cancel_stored jobs (some job) now allowed phase).1
        ≡ store jobs (job_step (Operation.cancel id now allowed phase) job))
      ⊎ (((cancel_stored jobs (some job) now allowed phase).1 ≡ jobs)
          × (job_step (Operation.cancel id now allowed phase) job ≡ job))
unfolding cancel_stored job_step
cancel_form jobs id phase now allowed job = ground arith

claim_refines :
    (jobs : Jobs) (id owner : String) (now lease : Datetime) (key : String)
    (found : Option DurableJob)
    → get jobs id ≡ found
    → IsKeyed jobs
    → get (claim_stored jobs found owner now lease).1 key
      ≡ changed id (job_step (Operation.claim id owner now lease)) key (get jobs key)
unfolding claim_stored
claim_refines jobs id owner now lease key none h keyed =
    missing jobs id (job_step (Operation.claim id owner now lease)) key h
claim_refines jobs id owner now lease key (some job) h keyed =
    let op = Operation.claim id owner now lease in
    finish jobs (claim_stored jobs (some job) owner now lease).1 id (job_step op) key job h
      (job_step_id op job ∙ keyed id job h) (claim_form jobs id owner now lease job)

heartbeat_refines :
    (jobs : Jobs) (id owner : String) (now lease : Datetime) (key : String)
    (found : Option DurableJob)
    → get jobs id ≡ found
    → IsKeyed jobs
    → get (heartbeat_stored jobs found owner now lease).1 key
      ≡ changed id (job_step (Operation.heartbeat id owner now lease)) key (get jobs key)
unfolding heartbeat_stored
heartbeat_refines jobs id owner now lease key none h keyed =
    missing jobs id (job_step (Operation.heartbeat id owner now lease)) key h
heartbeat_refines jobs id owner now lease key (some job) h keyed =
    let op = Operation.heartbeat id owner now lease in
    finish jobs (heartbeat_stored jobs (some job) owner now lease).1 id (job_step op) key job h
      (job_step_id op job ∙ keyed id job h) (heartbeat_form jobs id owner now lease job)

cancel_refines :
    (jobs : Jobs) (id phase : String) (now : Datetime) (allowed : List JobStatus) (key : String)
    (found : Option DurableJob)
    → get jobs id ≡ found
    → IsKeyed jobs
    → get (cancel_stored jobs found now allowed phase).1 key
      ≡ changed id (job_step (Operation.cancel id now allowed phase)) key (get jobs key)
unfolding cancel_stored
cancel_refines jobs id phase now allowed key none h keyed =
    missing jobs id (job_step (Operation.cancel id now allowed phase)) key h
cancel_refines jobs id phase now allowed key (some job) h keyed =
    let op = Operation.cancel id now allowed phase in
    finish jobs (cancel_stored jobs (some job) now allowed phase).1 id (job_step op) key job h
      (job_step_id op job ∙ keyed id job h) (cancel_form jobs id phase now allowed job)

-- On jobs stored under their own identifiers, an operation on the store is the step of the one job
-- that it addresses: every key finds what it found before, with that job stepped.
pub apply_refines :
    (op : Operation) (jobs : Jobs) (key : String)
    → IsKeyed jobs
    → get (apply op jobs) key ≡ changed (addressed op) (job_step op) key (get jobs key)
unfolding claim_job heartbeat_job cancel_job
apply_refines (Operation.claim id owner now lease) jobs key keyed =
    claim_refines jobs id owner now lease key (get jobs id) refl keyed
apply_refines (Operation.heartbeat id owner now lease) jobs key keyed =
    heartbeat_refines jobs id owner now lease key (get jobs id) refl keyed
apply_refines (Operation.cancel id now allowed phase) jobs key keyed =
    cancel_refines jobs id phase now allowed key (get jobs id) refl keyed

changed_keyed :
    (op : Operation) (key : String) (found : Option DurableJob) (job : DurableJob)
    → ((before : DurableJob) → found ≡ some before → before.id ≡ key)
    → changed (addressed op) (job_step op) key found ≡ some job
    → job.id ≡ key
changed_keyed op key none job keyed h = ground arith
changed_keyed op key (some before) job keyed h =
    ground (arith, job_step_id op before, keyed before refl)

-- Every operation keeps the jobs under their own identifiers.
pub apply-IsKeyed : (op : Operation) (jobs : Jobs) → IsKeyed jobs → IsKeyed (apply op jobs)
apply-IsKeyed op jobs keyed key job h =
    changed_keyed op key (get jobs key) job (keyed key) (sym (apply_refines op jobs key keyed) ∙ h)
