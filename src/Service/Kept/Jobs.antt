-- ===== src/Service/Kept/Jobs.antt =====
-- The operations of the repository on its jobs store any number of jobs and do nothing else
-- (repository.py), and so they keep every stable invariant of the service.
use aisys_adm.Prelude.{
  String, Bool, true, false, not, ◌&&◌, Option, none, some, List, [], ◌∷◌, leb, ◌is◌, if◌then◌else◌,
}
use aisys_adm.Models.Words.{JobStatus, job_status_enum}
use aisys_adm.Models.Values.{Datetime, get}
use aisys_adm.Models.Jobs.{DurableJob}
use aisys_adm.Repository.Leases.{terminalize_exhausted_job}
use aisys_adm.Repository.Jobs.{
  Jobs, store, claimed, save_leased, save_job, is_stale, claim_stored, claim_job, heartbeat_stored,
  heartbeat_job, cancel_stored, cancel_job,
}
use aisys_adm.Repository.Recovery.{
  Recovered, recovered_job, recover_loop, recover_expired_jobs, values,
}
use aisys_adm.Service.World.{World, Environment}
use aisys_adm.Service.Records.{on_jobs}
use aisys_adm.Service.Kept.Rules.{Writes, Stable, Keeps}

-- Jobs as they are after any number of jobs were stored.
pub data Stores : Jobs → Jobs → Type 0 where
  same : {jobs : Jobs} → Stores jobs jobs
  more : {jobs done : Jobs} (job : DurableJob) → Stores (store jobs job) done → Stores jobs done

if-Stores :
    {A : Type 0} {jobs : Jobs} (x y : A × Jobs) (c : Bool)
    → Stores jobs x.1
    → Stores jobs y.1
    → Stores jobs (if c then x else y).1
if-Stores x y true p q = p
if-Stores x y false p q = q

one : {jobs : Jobs} (job : DurableJob) → Stores jobs (store jobs job)
one job = Stores.more job Stores.same

save_leased-Stores :
    (jobs : Jobs) (job : DurableJob) (owner : String) (stored : Option DurableJob)
    → Stores jobs (save_leased jobs job owner stored).1
unfolding save_leased
save_leased-Stores jobs job owner none = Stores.same
save_leased-Stores jobs job owner (some current) = search (if-Stores, one, Stores.same)

pub save_job-Stores :
    (jobs : Jobs) (job : DurableJob) (owner : Option String)
    → Stores jobs (save_job jobs job owner).1
unfolding save_job
save_job-Stores jobs job none = one job
save_job-Stores jobs job (some owner) = save_leased-Stores jobs job owner (get jobs job.id)

claim_stored-Stores :
    (jobs : Jobs) (stored : Option DurableJob) (owner : String) (t u : Datetime)
    → Stores jobs (claim_stored jobs stored owner t u).1
unfolding claim_stored
claim_stored-Stores jobs none owner t u = Stores.same
claim_stored-Stores jobs (some job) owner t u =
    if-Stores (none, jobs)
      (if leb job.max_attempts job.attempts
        then (none, store jobs (terminalize_exhausted_job job t))
        else (some (claimed job owner t u), store jobs (claimed job owner t u)))
      (not (job.status is JobStatus.queued) && not (is_stale job t)) Stores.same
      (search (if-Stores, one))

pub claim_job-Stores :
    (jobs : Jobs) (id owner : String) (t u : Datetime) → Stores jobs (claim_job jobs id owner t u).1
unfolding claim_job
claim_job-Stores jobs id owner t u = claim_stored-Stores jobs (get jobs id) owner t u

heartbeat_stored-Stores :
    (jobs : Jobs) (stored : Option DurableJob) (owner : String) (t u : Datetime)
    → Stores jobs (heartbeat_stored jobs stored owner t u).1
unfolding heartbeat_stored
heartbeat_stored-Stores jobs none owner t u = Stores.same
heartbeat_stored-Stores jobs (some job) owner t u = search (if-Stores, one, Stores.same)

pub heartbeat_job-Stores :
    (jobs : Jobs) (id owner : String) (t u : Datetime)
    → Stores jobs (heartbeat_job jobs id owner t u).1
unfolding heartbeat_job
heartbeat_job-Stores jobs id owner t u = heartbeat_stored-Stores jobs (get jobs id) owner t u

cancel_stored-Stores :
    (jobs : Jobs) (stored : Option DurableJob) (t : Datetime) (allowed : List JobStatus)
    (phase : String)
    → Stores jobs (cancel_stored jobs stored t allowed phase).1
unfolding cancel_stored
cancel_stored-Stores jobs none t allowed phase = Stores.same
cancel_stored-Stores jobs (some job) t allowed phase = search (if-Stores, one, Stores.same)

pub cancel_job-Stores :
    (jobs : Jobs) (id : String) (t : Datetime) (allowed : List JobStatus) (phase : String)
    → Stores jobs (cancel_job jobs id t allowed phase).1
unfolding cancel_job
cancel_job-Stores jobs id t allowed phase = cancel_stored-Stores jobs (get jobs id) t allowed phase

-- The jobs that one round of the recovery leaves, whichever list the round adds to.
round-Stores :
    (c d : Bool) (jobs : Jobs) (job : DurableJob) (done : Recovered)
    → Stores (if c then store jobs job else jobs) done.jobs
    → Stores jobs
        (if not c
          then done
          else if d
          then record done { exhausted = job ∷ done.exhausted }
          else record done { recovered = job ∷ done.recovered }).jobs
round-Stores true true jobs job done p = Stores.more job p
round-Stores true false jobs job done p = Stores.more job p
round-Stores false d jobs job done p = p

recover_loop-Stores :
    (list : List DurableJob) (t : Datetime) (jobs : Jobs)
    → Stores jobs (recover_loop list t jobs).jobs
unfolding recover_loop
recover_loop-Stores [] t jobs = Stores.same
recover_loop-Stores (stored ∷ rest) t jobs =
    round-Stores (is_stale stored t) (leb stored.max_attempts stored.attempts) jobs
      (recovered_job stored t) _
      (recover_loop-Stores rest t
        (if is_stale stored t then store jobs (recovered_job stored t) else jobs))

pub recover_expired_jobs-Stores :
    (jobs : Jobs) (t : Datetime) → Stores jobs (recover_expired_jobs jobs t).jobs
unfolding recover_expired_jobs
recover_expired_jobs-Stores jobs t = recover_loop-Stores (values jobs) t jobs

module _ {env : Environment} {I : World → Type 0} (stable : Stable env I) where
  stored_kept :
      {jobs done : Jobs} (w : World)
      → Stores jobs done
      → I (record w { store = record w.store { jobs = jobs } })
      → I (record w { store = record w.store { jobs = done } })
  stored_kept w Stores.same i = i
  stored_kept {jobs = jobs} w (Stores.more job rest) i =
      stored_kept w rest
        (stable.written (record w { store = record w.store { jobs = jobs } }) _ (Writes.job job) i)

  pub on_jobs-Keeps :
      {A : Type 0} (f : Jobs → A × Jobs)
      → ((jobs : Jobs) → Stores jobs (f jobs).1)
      → Keeps I (on_jobs f)
  unfolding on_jobs
  on_jobs-Keeps f h = record { runs = λ w i. stored_kept w (h w.store.jobs) i }

pub ruleset job_steps =
    (on_jobs-Keeps, save_job-Stores, claim_job-Stores, heartbeat_job-Stores, cancel_job-Stores)
