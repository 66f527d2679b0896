-- ===== src/Repository/Store.antt =====
-- The dictionary of jobs as the repository uses it: a value stored under a job's id is found again.
use aisys_adm.Prelude.{String, some, [], ◌∷◌, ◌==◌, ◌≡◌, refl, if◌then◌else◌, arith, eq_iff}
use aisys_adm.Models.Values.{Dict, get, put}
use aisys_adm.Models.Jobs.{DurableJob}
use aisys_adm.Repository.Jobs.{Jobs, store}

module _ {ℓ} {V : Type ℓ} where
  -- Storing a value changes what its key finds, and no other.
  pub get-put :
      (d : Dict V) (key : String) (value : V) (other : String)
      → get (put d key value) other ≡ (if key == other then some value else get d other)
  get-put [] key value other = refl
  get-put ((k, v) ∷ d) key value other =
      ground (arith, get-put d key value other, eq_iff k key, eq_iff k other, eq_iff key other)

pub get-store :
    (jobs : Jobs) (job : DurableJob) (id : String)
    → job.id ≡ id
    → get (store jobs job) id ≡ some job
get-store jobs job id h = ground (arith, get-put jobs job.id job id, eq_iff job.id id)
