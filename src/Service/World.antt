-- ===== src/Service/World.antt =====
-- The state that the service works on and the way its methods end. The store holds what
-- `InMemoryRepository` keeps (repository.py); what is read from it is a copy, as it is from
-- `SqlRepository`, and a transaction that raises leaves the store as it found it.
use aisys_adm.Prelude.{
  ℕ, ◌+◌, ◌-◌, ◌*◌, String, Bool, true, false, Option, none, some, List, [], ◌∷◌, if◌then◌else◌,
}
use aisys_adm.Models.Words.{FailureCategory}
use aisys_adm.Models.Values.{Datetime, Dict, Json, JsonDict}
use aisys_adm.Models.Hosts.{Host}
use aisys_adm.Models.Collected.{HostSnapshot}
use aisys_adm.Models.Snapshots.{RollbackSnapshot}
use aisys_adm.Models.Remediations.{Remediation, StructuredLogEvent, ExecutionResult}
use aisys_adm.Models.Jobs.{DurableJob}
use aisys_adm.Models.Campaigns.{PatchCampaign}
use aisys_adm.Models.Scans.{ScanJob}
use aisys_adm.Models.Records.{
  HostSchedule, SshCredential, Alert, AuditEvent, SnapshotOperationResult, SnapshotHealthResult,
}
use aisys_adm.Gate.Decision.{GateDecision}
use aisys_adm.Gate.Plan.{PlanPayload}
use aisys_adm.Gate.Timing.{Calendar}

pub record Store : Type 0 where
  pub hosts : Dict Host
  pub credentials : Dict SshCredential
  pub schedules : Dict HostSchedule
  pub snapshots : Dict HostSnapshot
  pub rollback_snapshots : Dict RollbackSnapshot
  pub scans : Dict ScanJob
  pub remediations : Dict Remediation
  pub campaigns : Dict PatchCampaign
  pub jobs : Dict DurableJob
  pub logs : Dict StructuredLogEvent
  pub alerts : Dict Alert
  pub audits : Dict AuditEvent

-- What the service asks of the world outside, in the order of the calls.
pub data Call : Type 0 where
  collects : Host → String → Call
  creates_snapshot : Host → Remediation → Call
  executes : Host → Remediation → String → Call
  checks_health : Host → Remediation → Call
  rolls_back : Host → Remediation → Call
  deletes_snapshot : Host → String → Call

-- `ticks` counts the identifiers and the times that were drawn. Each call is kept with the store as
-- it was when the call was made.
pub record World : Type 0 where
  pub store : Store
  pub ticks : ℕ
  pub in_transaction : Bool
  pub calls : List (Store × Call)

-- The exceptions that the service raises and tells apart.
pub data Raised : Type 0 where
  value_error : String → Raised
  gate_denied : GateDecision → Raised
  job_lease_lost : Raised
  non_retryable : String → FailureCategory → Raised
  other : String → Raised

pub data Result (E A : Type 0) : Type 0 where
  ok : A → Result E A
  err : E → Result E A

-- What the service is given and draws: `new_id prefix n` and `utc_now n` are the identifier and the
-- time drawn at the n-th tick, and so are the answers of the hosts and of the snapshot provider, or the
-- exceptions that they raise.
-- `same_remediation` is pydantic's equality. `heartbeats n` is how often the heartbeat of the job comes while the call of that tick runs.
pub record Environment : Type 0 where
  pub hash : PlanPayload → String
  pub redact_text : String → Option Host → String
  pub sanitize_audit_details : JsonDict → JsonDict
  pub lower : String → String
  pub show : Json → String
  pub isoformat : Datetime → String
  pub minute_stamp : Datetime → String
  pub calendar : Calendar
  pub next_run : String → String → Datetime → Option Datetime
  pub same_remediation : Remediation → Remediation → Bool
  pub new_id : String → ℕ → String
  pub utc_now : ℕ → Datetime
  pub job_lease_seconds : ℕ
  pub log_retention_days : ℕ
  pub heartbeats : ℕ → ℕ
  pub collect : ℕ → Host → Result Raised (HostSnapshot × List StructuredLogEvent)
  pub execute : ℕ → Host → Remediation → Result Raised ExecutionResult
  pub create_snapshot :
      ℕ → Host → Remediation → RollbackSnapshot → Result Raised SnapshotOperationResult
  pub run_health_checks :
      ℕ → Host → Remediation → RollbackSnapshot → Result Raised SnapshotHealthResult
  pub rollback_snapshot :
      ℕ → Host → Remediation → RollbackSnapshot → Result Raised SnapshotOperationResult
  pub delete_snapshot : ℕ → Host → RollbackSnapshot → Result Raised SnapshotOperationResult

-- A method that may raise an `E`. What it wrote before stays written.
abbrev pub ActionOr : Type 0 → Type 0 → Type 0
ActionOr E A = World → Result E A × World

abbrev pub Action : Type 0 → Type 0
Action A = ActionOr Raised A

module _ {E A : Type 0} where
  unfoldable pub pure : A → ActionOr E A
  pure a w = (ok a, w)

  unfoldable pub raise : E → ActionOr E A
  raise e w = (err e, w)

  -- An answer or an exception from outside.
  unfoldable pub settle : Result E A → ActionOr E A
  settle x w = (x, w)

  unfoldable pub or_raise : Option A → E → ActionOr E A
  or_raise none e = raise e
  or_raise (some a) e = pure a

abbrev pub after : {E A B : Type 0} → Result E A × World → (A → ActionOr E B) → Result E B × World
after (ok a, w) f = f a w
after (err e, w) f = (err e, w)

infixl 5 ◌>>=◌ ◌>>◌
unfoldable pub ◌>>=◌ : {E A B : Type 0} → ActionOr E A → (A → ActionOr E B) → ActionOr E B
◌>>=◌ m f w = after (m w) f

unfoldable pub ◌>>◌ : {E A B : Type 0} → ActionOr E A → ActionOr E B → ActionOr E B
m >> k = m >>= λ _. k

unfoldable pub gets : {E A : Type 0} → (Store → A) → ActionOr E A
gets f w = (ok (f w.store), w)

unfoldable pub modify : {E : Type 0} → (Store → Store) → ActionOr E (Unit {0})
modify f w = (ok tt, record w { store = f w.store })

unfoldable pub raise_if : {E : Type 0} → Bool → E → ActionOr E (Unit {0})
raise_if c e w = (if c then err e else ok tt, w)

unfoldable pub when : {E : Type 0} → Bool → ActionOr E (Unit {0}) → ActionOr E (Unit {0})
when true m = m
when false m = pure tt

-- Two continuations, for a value that is there and for `None`.
unfoldable pub if_some :
    {E A B : Type 0} → Option A → (A → ActionOr E B) → ActionOr E B → ActionOr E B
if_some none found missing = missing
if_some (some a) found missing = found a

-- for item in items: body(item)
unfoldable pub each : {E A : Type 0} → List A → (A → ActionOr E (Unit {0})) → ActionOr E (Unit {0})
each [] body = pure tt
each (x ∷ xs) body = body x >> each xs body

-- [body(item) for item in items]
unfoldable pub collect_each : {E A B : Type 0} → List A → (A → ActionOr E B) → ActionOr E (List B)
collect_each [] body = pure []
collect_each (x ∷ xs) body = do y ← body x; ys ← collect_each xs body; pure (y ∷ ys)

-- with self.repository.transaction(): …; an inner transaction is part of the outer one.
unfoldable pub leave_transaction : {E A : Type 0} → World → Result E A × World → Result E A × World
leave_transaction before (ok a, w) = (ok a, record w { in_transaction = false })
leave_transaction before (err e, w) =
    (err e, record w { store = before.store; in_transaction = false })

unfoldable pub transaction : {E A : Type 0} → ActionOr E A → ActionOr E A
unfolding leave_transaction
transaction m w =
    if w.in_transaction then m w else leave_transaction w (m (record w { in_transaction = true }))

unfoldable pub seconds_after : Datetime → ℕ → Datetime
seconds_after t seconds = record t { instant = t.instant + seconds * 1000000 }

unfoldable pub days_before : Datetime → ℕ → Datetime
days_before t days = record t { instant = t.instant - days * 86400000000 }

unfoldable pub days_after : Datetime → ℕ → Datetime
days_after t days = record t { instant = t.instant + days * 86400000000 }
