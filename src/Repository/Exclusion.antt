-- ===== src/Repository/Exclusion.antt =====
-- One worker at a time: what a claim that succeeds keeps other workers from doing (`claim_job`,
-- `save_job` and `heartbeat_job` of repository.py).
use aisys_adm.Prelude.{
  ◌<◌, String, true, false, none, some, ◌≡◌, ◌≢◌, ◌↔◌, ◌⊎◌, refl, arith, ◌is◌, same_text_iff,
}
use aisys_adm.Models.Words.{JobStatus, job_status_enum}
use aisys_adm.Models.Values.{Datetime, get, is_some}
use aisys_adm.Models.Jobs.{DurableJob}
use aisys_adm.Repository.Leases.{lease_is_expired}
use aisys_adm.Repository.Jobs.{
  Jobs, store, is_stale, holds_lease, claimed, claim_stored, claim_job, heartbeat_stored,
  heartbeat_job, save_leased, save_job,
}
use aisys_adm.Repository.Store.{get-store}

-- A job that a claim may take: it is queued, or its worker let the lease run out.
pub record IsClaimable (job : DurableJob) (now : Datetime) : Type 0 where
  pub free :
      (job.status ≡ JobStatus.queued)
      ⊎ ((job.status ≡ JobStatus.running) × (lease_is_expired job.lease_expires_at now ≡ true))
  pub attempts_left : job.attempts < job.max_attempts

-- A stored job is claimed exactly when it is queued or its lease has run out, and attempts are left.
pub claim_granted :
    (jobs : Jobs) (id owner : String) (now lease : Datetime) (job : DurableJob)
    → get jobs id ≡ some job
    → is_some (claim_job jobs id owner now lease).0 ≡ true ↔ IsClaimable job now
unfolding claim_job claim_stored is_stale
claim_granted jobs id owner now lease job found = rw (found) ground arith

stored_form :
    (jobs : Jobs) (owner : String) (now lease : Datetime) (job : DurableJob)
    → is_some (claim_stored jobs (some job) owner now lease).0 ≡ true
    → (claim_stored jobs (some job) owner now lease).1 ≡ store jobs (claimed job owner now lease)
unfolding claim_stored
stored_form jobs owner now lease job h = ground arith

pub claim_form :
    (jobs : Jobs) (id owner : String) (now lease : Datetime) (job : DurableJob)
    → get jobs id ≡ some job
    → is_some (claim_job jobs id owner now lease).0 ≡ true
    → (claim_job jobs id owner now lease).1 ≡ store jobs (claimed job owner now lease)
unfolding claim_job claim_stored
claim_form jobs id owner now lease job found = rw (found) (stored_form jobs owner now lease job)

-- A claim that succeeds stores the claimed job under its identifier.
pub claimed_found :
    (jobs : Jobs) (id owner : String) (now lease : Datetime) (job : DurableJob)
    → get jobs id ≡ some job
    → job.id ≡ id
    → is_some (claim_job jobs id owner now lease).0 ≡ true
    → get (claim_job jobs id owner now lease).1 id ≡ some (claimed job owner now lease)
unfolding claimed
claimed_found jobs id owner now lease job found key h =
    rw (claim_form jobs id owner now lease job found h)
      (get-store jobs (claimed job owner now lease) id key)

blocked :
    (jobs : Jobs) (id other : String) (later next_lease : Datetime) (job : DurableJob)
    → get jobs id ≡ some job
    → job.status is JobStatus.running ≡ true
    → lease_is_expired job.lease_expires_at later ≡ false
    → claim_job jobs id other later next_lease ≡ (none, jobs)
unfolding claim_job claim_stored is_stale
blocked jobs id other later next_lease job found running runs = rw (found) ground arith

-- While the lease of a claim runs, of a job stored under its own identifier, no other claim of the
-- job succeeds or changes the store.
pub claim_exclusive :
    (jobs : Jobs) (id owner : String) (now lease : Datetime) (job : DurableJob) (other : String)
    (later next_lease : Datetime)
    → get jobs id ≡ some job
    → job.id ≡ id
    → is_some (claim_job jobs id owner now lease).0 ≡ true
    → lease_is_expired (some lease) later ≡ false
    → let after = (claim_job jobs id owner now lease).1 in
      claim_job after id other later next_lease ≡ (none, after)
unfolding claimed
claim_exclusive jobs id owner now lease job other later next_lease found key h runs =
    blocked (claim_job jobs id owner now lease).1 id other later next_lease
      (claimed job owner now lease) (claimed_found jobs id owner now lease job found key h) refl
      runs

not_held :
    (job : DurableJob) (former owner : String) (t : Datetime)
    → job.lease_owner ≡ some owner
    → former ≢ owner
    → holds_lease job former t ≡ false
unfolding holds_lease
not_held job former owner t h other = ground (arith, same_text_iff job.lease_owner (some former))

save_refused :
    (jobs : Jobs) (saved : DurableJob) (former : String) (job : DurableJob)
    → get jobs saved.id ≡ some job
    → holds_lease job former saved.updated_at ≡ false
    → save_job jobs saved (some former) ≡ (none, jobs)
unfolding save_job save_leased
save_refused jobs saved former job found h = rw (found) ground arith

heartbeat_refused :
    (jobs : Jobs) (id former : String) (t u : Datetime) (job : DurableJob)
    → get jobs id ≡ some job
    → holds_lease job former t ≡ false
    → heartbeat_job jobs id former t u ≡ (none, jobs)
unfolding heartbeat_job heartbeat_stored
heartbeat_refused jobs id former t u job found h = rw (found) ground arith

-- A worker whose job, stored under its own identifier, another worker has claimed since can neither
-- save the job nor renew its lease: both find no job to return, and change nothing.
pub stale_worker_fenced :
    (jobs : Jobs) (id owner : String) (now lease : Datetime) (job : DurableJob) (former : String)
    (saved : DurableJob) (t u : Datetime)
    → get jobs id ≡ some job
    → job.id ≡ id
    → is_some (claim_job jobs id owner now lease).0 ≡ true
    → former ≢ owner
    → saved.id ≡ id
    → let after = (claim_job jobs id owner now lease).1 in
      (save_job after saved (some former) ≡ (none, after))
      × (heartbeat_job after id former t u ≡ (none, after))
unfolding claimed
stale_worker_fenced jobs id owner now lease job former saved t u found key h other same =
    let after = (claim_job jobs id owner now lease).1 in
    let taken = claimed job owner now lease in
    let there = claimed_found jobs id owner now lease job found key h in
    (
      save_refused after saved former taken (rw (same) there)
          (not_held taken former owner saved.updated_at refl other),
      heartbeat_refused after id former t u taken there (not_held taken former owner t refl other),
    )
