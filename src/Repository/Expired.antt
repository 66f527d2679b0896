-- ===== src/Repository/Expired.antt =====
-- What a recovery of expired jobs leaves in the store (`recover_expired_jobs` of repository.py).
use aisys_adm.Prelude.{
  String, Bool, true, false, Option, none, some, ◌≡◌, ◌∙◌, sym, ap, subst, List, [], ◌∷◌, ◌==◌,
  refl, arith, eq_iff, ◌is◌, if◌then◌else◌,
}
use aisys_adm.Models.Words.{JobStatus, job_status_enum}
use aisys_adm.Models.Values.{Datetime, get}
use aisys_adm.Models.Jobs.{DurableJob}
use aisys_adm.Repository.Leases.{terminalize_exhausted_job}
use aisys_adm.Repository.Jobs.{Jobs, store, is_stale}
use aisys_adm.Repository.Recovery.{
  unleased, recovered_job, recover_loop, recover_expired_jobs, values,
}
use aisys_adm.Repository.Store.{get-put}

-- No key of the dictionary stands in it twice.
abbrev pub HasDistinctKeys : Jobs → Type 0
HasDistinctKeys [] = Unit
HasDistinctKeys ((key, job) ∷ jobs) = (get jobs key ≡ none) × HasDistinctKeys jobs

-- Every job stands under its own identifier, entry by entry.
abbrev pub HasOwnKeys : Jobs → Type 0
HasOwnKeys [] = Unit
HasOwnKeys ((key, job) ∷ jobs) = (job.id ≡ key) × HasOwnKeys jobs

-- The recovery of a job, where its lease has run out.
unfoldable pub recover_stale : Datetime → DurableJob → DurableJob
recover_stale now job = if is_stale job now then recovered_job job now else job

abbrev pub recover_found : Datetime → Option DurableJob → Option DurableJob
recover_found now none = none
recover_found now (some job) = some (recover_stale now job)

abbrev after_loop : Datetime → Option DurableJob → Option DurableJob → Option DurableJob
after_loop now none stored = stored
after_loop now (some job) stored = if is_stale job now then some (recovered_job job now) else stored

recovered_job_id : (job : DurableJob) (now : Datetime) → (recovered_job job now).id ≡ job.id
unfolding recovered_job unleased terminalize_exhausted_job
recovered_job_id job now = ground arith

loop_jobs :
    (job : DurableJob) (rest : List DurableJob) (now : Datetime) (jobs : Jobs)
    → (recover_loop (job ∷ rest) now jobs).jobs
      ≡ (recover_loop rest now
          (if is_stale job now then store jobs (recovered_job job now) else jobs)).jobs
unfolding recover_loop
loop_jobs job rest now jobs = ground arith

stored_next :
    (job : DurableJob) (now : Datetime) (jobs : Jobs) (key id : String)
    → job.id ≡ id
    → get (if is_stale job now then store jobs (recovered_job job now) else jobs) key
      ≡ (if id == key then after_loop now (some job) (get jobs key) else get jobs key)
stored_next job now jobs key id h = ground (
  arith,
  get-put jobs (recovered_job job now).id (recovered_job job now) key,
  recovered_job_id job now,
  eq_iff id key,
  eq_iff (recovered_job job now).id key,
)

found_first :
    (b : Bool) (job : DurableJob) (now : Datetime) (rest stored : Option DurableJob)
    → (b ≡ true → rest ≡ none)
    → after_loop now rest (if b then after_loop now (some job) stored else stored)
      ≡ after_loop now (if b then some job else rest) stored
found_first true job now rest stored h = rw (h refl) refl
found_first false job now rest stored h = refl

loop_found :
    (entries : Jobs) (now : Datetime) (jobs : Jobs) (key : String)
    → HasDistinctKeys entries
    → HasOwnKeys entries
    → get (recover_loop (values entries) now jobs).jobs key
      ≡ after_loop now (get entries key) (get jobs key)
unfolding recover_loop
loop_found [] now jobs key distinct own = refl
loop_found ((id, job) ∷ entries) now jobs key distinct own =
    let next = if is_stale job now then store jobs (recovered_job job now) else jobs in
    rw (loop_jobs job (values entries) now jobs) (
      loop_found entries now next key distinct.1 own.1
      ∙ ap (after_loop now (get entries key)) (stored_next job now jobs key id own.0)
      ∙ found_first (id == key) job now (get entries key) (get jobs key)
          (λ t. subst (λ k. get entries k ≡ none) ((eq_iff id key).0 t) distinct.0))

after_loop_self :
    (now : Datetime) (found : Option DurableJob)
    → after_loop now found found ≡ recover_found now found
unfolding recover_stale
after_loop_self now none = refl
after_loop_self now (some job) = ground arith

-- On a dictionary of jobs with distinct keys, each job under its own identifier, the recovery
-- recovers under every key the job that is found there if its lease has run out, and changes no
-- other.
pub recover_pointwise :
    (jobs : Jobs) (now : Datetime) (key : String)
    → HasDistinctKeys jobs
    → HasOwnKeys jobs
    → get (recover_expired_jobs jobs now).jobs key ≡ recover_found now (get jobs key)
unfolding recover_expired_jobs
recover_pointwise jobs now key distinct own =
    loop_found jobs now jobs key distinct own ∙ after_loop_self now (get jobs key)

not_running :
    (job : DurableJob) (now : Datetime)
    → ((recovered_job job now).status is JobStatus.running) ≡ false
unfolding recovered_job terminalize_exhausted_job
not_running job now = ground arith

idle :
    (job : DurableJob) (now : Datetime)
    → (job.status is JobStatus.running) ≡ false
    → is_stale job now ≡ false
unfolding is_stale
idle job now h = ground arith

not_stale : (job : DurableJob) (now : Datetime) → is_stale (recover_stale now job) now ≡ false
unfolding recover_stale
not_stale job now = ground (arith, idle (recovered_job job now) now (not_running job now))

stale_found :
    (before : Option DurableJob) (job : DurableJob) (now : Datetime)
    → recover_found now before ≡ some job
    → is_stale job now ≡ false
stale_found none job now h = ground arith
stale_found (some before) job now h =
    subst (λ o. elim o [ none ↦ Unit | some j ↦ is_stale j now ≡ false ]) h (not_stale before now)

-- After a recovery of jobs with distinct keys, each under its own identifier, no job is left that is
-- running on a lease that has run out.
pub recovery_leaves_no_stale_job :
    (jobs : Jobs) (now : Datetime) (key : String) (job : DurableJob)
    → HasDistinctKeys jobs
    → HasOwnKeys jobs
    → get (recover_expired_jobs jobs now).jobs key ≡ some job
    → is_stale job now ≡ false
recovery_leaves_no_stale_job jobs now key job distinct own found =
    stale_found (get jobs key) job now (sym (recover_pointwise jobs now key distinct own) ∙ found)
