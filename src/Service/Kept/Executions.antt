-- ===== src/Service/Kept/Executions.antt =====
-- Steps of a worker on a job object, and what the gate is asked before a change (service.py): what
-- every stable invariant withstands.
use aisys_adm.Prelude.{ℕ, String}
use aisys_adm.Models.Jobs.{DurableJob}
use aisys_adm.Service.World.{World, Environment, Raised, Action, Result, ok, err}
use aisys_adm.Service.Execution.{stopped_with, holding, require_eligible, enter_phase}
use aisys_adm.Service.Kept.Rules.{Stable, Keeps}
use aisys_adm.Service.Kept.Plans.{plan_steps}

module _ {env : Environment} {I : World → Type 0} (stable : Stable env I) where
  pub stopped_kept :
      {A : Type 0} (job : DurableJob) (x : Result Raised A × World)
      → I x.1
      → I (stopped_with job x).1
  stopped_kept job (ok a, w) i = i
  stopped_kept job (err e, w) i = i

  pub holding-Keeps :
      {A : Type 0} {m : Action A} (job : DurableJob) → Keeps I m → Keeps I (holding job m)
  unfolding holding
  holding-Keeps {m = m} job p = record { runs = λ w i. stopped_kept job (m w) (p.runs w i) }

  pub require_eligible-Keeps : (job : DurableJob) → Keeps I (require_eligible env job)
  unfolding require_eligible
  require_eligible-Keeps job = search plan_steps depth 24

  pub enter_phase-Keeps :
      (job : DurableJob) (name : String) (percent : ℕ) (owner : String)
      → Keeps I (enter_phase env job name percent owner)
  unfolding enter_phase
  enter_phase-Keeps job name percent owner = search (plan_steps, holding-Keeps) depth 24
