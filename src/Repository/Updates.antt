-- ===== src/Repository/Updates.antt =====
-- Changing one job of the dictionary that is stored under its own identifier.
use aisys_adm.Prelude.{
  String, Option, none, some, ◌≡◌, ◌⊎◌, ◌==◌, refl, ap, inl, inr, ◌∙◌, arith, eq_iff, if◌then◌else◌,
}
use aisys_adm.Models.Words.{job_status_enum}
use aisys_adm.Models.Values.{get}
use aisys_adm.Models.Jobs.{DurableJob}
use aisys_adm.Repository.Jobs.{Jobs, store}
use aisys_adm.Repository.Store.{get-put}

-- The effect of a change of one job on what a key finds.
abbrev pub changed :
    String → (DurableJob → DurableJob) → String → Option DurableJob → Option DurableJob
changed id f key none = none
changed id f key (some job) = some (if id == key then f job else job)

none_changed :
    (id : String) (f : DurableJob → DurableJob) (key : String) (a b : Option DurableJob)
    → (id ≡ key → a ≡ b)
    → a ≡ none
    → b ≡ changed id f key b
none_changed id f key a none s h = refl
none_changed id f key a (some job) s h = ground (arith, eq_iff id key)

pub missing :
    (jobs : Jobs) (id : String) (f : DurableJob → DurableJob) (key : String)
    → get jobs id ≡ none
    → get jobs key ≡ changed id f key (get jobs key)
missing jobs id f key h = none_changed id f key (get jobs id) (get jobs key) (ap (get jobs)) h

some_kept :
    (id : String) (f : DurableJob → DurableJob) (key : String) (a b : Option DurableJob)
    (job : DurableJob)
    → (id ≡ key → a ≡ b)
    → a ≡ some job
    → f job ≡ job
    → b ≡ changed id f key b
some_kept id f key a none job s h e = refl
some_kept id f key a (some other) job s h e = ground (arith, eq_iff id key)

kept :
    (jobs : Jobs) (id : String) (f : DurableJob → DurableJob) (key : String) (job : DurableJob)
    → get jobs id ≡ some job
    → f job ≡ job
    → get jobs key ≡ changed id f key (get jobs key)
kept jobs id f key job h e = some_kept id f key (get jobs id) (get jobs key) job (ap (get jobs)) h e

some_stored :
    (id : String) (f : DurableJob → DurableJob) (key : String) (a b : Option DurableJob)
    (job : DurableJob)
    → (id ≡ key → a ≡ b)
    → a ≡ some job
    → (if id == key then some (f job) else b) ≡ changed id f key b
some_stored id f key a none job s h = ground (arith, eq_iff id key)
some_stored id f key a (some other) job s h = ground (arith, eq_iff id key)

stored :
    (jobs : Jobs) (id : String) (f : DurableJob → DurableJob) (key : String) (job : DurableJob)
    → get jobs id ≡ some job
    → (f job).id ≡ id
    → get (store jobs (f job)) key ≡ changed id f key (get jobs key)
stored jobs id f key job h e =
    get-put jobs (f job).id (f job) key
    ∙ ap (λ i. if i == key then some (f job) else get jobs key) e
    ∙ some_stored id f key (get jobs id) (get jobs key) job (ap (get jobs)) h

pub finish :
    (jobs after : Jobs) (id : String) (f : DurableJob → DurableJob) (key : String)
    (job : DurableJob)
    → get jobs id ≡ some job
    → (f job).id ≡ id
    → (after ≡ store jobs (f job)) ⊎ ((after ≡ jobs) × (f job ≡ job))
    → get after key ≡ changed id f key (get jobs key)
finish jobs after id f key job h e (inl s) = rw (s) (stored jobs id f key job h e)
finish jobs after id f key job h e (inr (s, same)) = rw (s) (kept jobs id f key job h same)
