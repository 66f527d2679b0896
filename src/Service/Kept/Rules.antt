-- ===== src/Service/Kept/Rules.antt =====
-- Invariants of the world and the actions that keep them: the writes that the service makes, what an
-- invariant has to withstand, and a rule for every way to put actions together.
use aisys_adm.Prelude.{
  ℕ, ◌+◌, String, Bool, true, false, Option, none, some, List, [], ◌∷◌, ◌≡◌, refl, subst,
  if◌then◌else◌,
}
use aisys_adm.Models.Words.{JobStatus}
use aisys_adm.Models.Values.{get, put}
use aisys_adm.Models.Hosts.{Host}
use aisys_adm.Models.Collected.{HostSnapshot}
use aisys_adm.Models.Snapshots.{RollbackSnapshot}
use aisys_adm.Models.Remediations.{Remediation, StructuredLogEvent}
use aisys_adm.Models.Jobs.{DurableJob}
use aisys_adm.Models.Campaigns.{PatchCampaign}
use aisys_adm.Models.Scans.{ScanJob}
use aisys_adm.Service.Records.{erase}
use aisys_adm.Models.Records.{HostSchedule, Alert, AuditEvent}
use aisys_adm.Gate.Eligibility.Conditions.{PlanApproved, SnapshotReady, JobBound}
use aisys_adm.Repository.Jobs.{store}
use aisys_adm.Service.World.{
  Store, World, Environment, Call, ActionOr, Result, ok, err, pure, raise, raise_if, gets, modify,
  or_raise, settle, after, ◌>>=◌, ◌>>◌, when, if_some, each, collect_each, leave_transaction,
  transaction,
}

-- A write of one record under its own identifier, or the removal of one.
pub data Writes : Store → Store → Type 0 where
  host_record : {s : Store} (x : Host) → Writes s (record s { hosts = put s.hosts x.id x })
  no_host : {s : Store} (id : String) → Writes s (record s { hosts = erase s.hosts id })
  schedule_record :
      {s : Store} (x : HostSchedule)
      → Writes s (record s { schedules = put s.schedules x.host_id x })
  no_schedule : {s : Store} (id : String) → Writes s (record s { schedules = erase s.schedules id })
  no_log : {s : Store} (id : String) → Writes s (record s { logs = erase s.logs id })
  snapshot :
      {s : Store} (x : HostSnapshot) → Writes s (record s { snapshots = put s.snapshots x.id x })
  rollback_snapshot :
      {s : Store} (x : RollbackSnapshot)
      → Writes s (record s { rollback_snapshots = put s.rollback_snapshots x.id x })
  scan : {s : Store} (x : ScanJob) → Writes s (record s { scans = put s.scans x.id x })
  remediation :
      {s : Store} (x : Remediation)
      → Writes s (record s { remediations = put s.remediations x.id x })
  campaign :
      {s : Store} (x : PatchCampaign) → Writes s (record s { campaigns = put s.campaigns x.id x })
  job : {s : Store} (x : DurableJob) → Writes s (record s { jobs = store s.jobs x })
  log : {s : Store} (x : StructuredLogEvent) → Writes s (record s { logs = put s.logs x.id x })
  alert : {s : Store} (x : Alert) → Writes s (record s { alerts = put s.alerts x.id x })
  audit_event : {s : Store} (x : AuditEvent) → Writes s (record s { audits = put s.audits x.id x })

-- The store has the plan and the host under their identifiers.
pub record IsStored (s : Store) (r : Remediation) (host : Host) : Type 0 where
  pub plan : get s.remediations r.id ≡ some r
  pub host_record : get s.hosts host.id ≡ some host

-- The store has the job, which is bound to the plan and running under the lease of a worker.
pub record IsHeld (s : Store) (r : Remediation) (host : Host) (job_id : String) : Type 0 where
  pub job : DurableJob
  pub stored : get s.jobs job_id ≡ some job
  pub running : job.status ≡ JobStatus.running
  pub worker : String
  pub leased : job.lease_owner ≡ some worker
  pub bound : JobBound r host job

-- What a change on a host rests on: the plan, its host and the job are those that the store has, the
-- plan is approved with its snapshot protection ready, and the job is held by a worker.
pub record MayRun (env : Environment) (s : Store) (host : Host) (r : Remediation) (job_id : String)
    : Type 0 where
  pub stored : IsStored s r host
  pub plan : PlanApproved env.hash r host
  pub ready : SnapshotReady r host
  pub held : IsHeld s r host job_id

abbrev pub IsGuarded : Environment → Store → Call → Type 0
IsGuarded env s (Call.executes host r job_id) = MayRun env s host r job_id
IsGuarded env s (Call.collects host job_id) = Unit {0}
IsGuarded env s (Call.creates_snapshot host r) = Unit {0}
IsGuarded env s (Call.checks_health host r) = Unit {0}
IsGuarded env s (Call.rolls_back host r) = Unit {0}
IsGuarded env s (Call.deletes_snapshot host job_id) = Unit {0}

-- An invariant that withstands whatever the service does to the world.
pub record Stable (env : Environment) (I : World → Type 0) : Type 0 where
  pub drawn : (w : World) (n : ℕ) → I w → I (record w { ticks = n })
  pub called :
      (w : World) (c : Call)
      → IsGuarded env w.store c
      → I w
      → I (record w { ticks = w.ticks + 1; calls = (w.store, c) ∷ w.calls })
  pub written : (w : World) (s : Store) → Writes w.store s → I w → I (record w { store = s })
  pub opened : (w : World) (b : Bool) → I w → I (record w { in_transaction = b })
  pub undone : (w v : World) → I w → I v → I (record v { store = w.store; in_transaction = false })

pub record Keeps (I : World → Type 0) {E A : Type 0} (m : ActionOr E A) : Type 0 where
  pub runs : (w : World) → I w → I (m w).1

-- What is more, the answer of the action is as `Q` says.
pub record Gives (I : World → Type 0) {E A : Type 0} (m : ActionOr E A) (Q : A → Type 0)
    : Type 0 where
  pub kept : Keeps I m
  pub answer : (w : World) (a : A) → (m w).0 ≡ ok a → Q a

pub ok_injective : {E A : Type 0} {a b : A} → Path (Result E A) (ok a) (ok b) → a ≡ b
ok_injective e = cc

module _ {I : World → Type 0} {E : Type 0} where
  pub pure-Keeps : {A : Type 0} (a : A) → Keeps I {E = E} (pure a)
  unfolding pure
  pure-Keeps a = record { runs = λ w i. i }

  pub raise-Keeps : {A : Type 0} (e : E) → Keeps I {E = E} {A = A} (raise e)
  unfolding raise
  raise-Keeps e = record { runs = λ w i. i }

  pub gets-Keeps : {A : Type 0} (f : Store → A) → Keeps I {E = E} (gets f)
  unfolding gets
  gets-Keeps f = record { runs = λ w i. i }

  pub raise_if-Keeps : (c : Bool) (e : E) → Keeps I (raise_if c e)
  unfolding raise_if
  raise_if-Keeps c e = record { runs = λ w i. i }

  pub settle-Keeps : {A : Type 0} (x : Result E A) → Keeps I (settle x)
  unfolding settle
  settle-Keeps x = record { runs = λ w i. i }

  pub or_raise-Keeps : {A : Type 0} (a : Option A) (e : E) → Keeps I (or_raise a e)
  unfolding or_raise
  or_raise-Keeps none e = raise-Keeps e
  or_raise-Keeps (some a) e = pure-Keeps a

  after_kept :
      {A B : Type 0} (x : Result E A × World) (f : A → ActionOr E B)
      → I x.1
      → ((a : A) → x.0 ≡ ok a → Keeps I (f a))
      → I (after x f).1
  after_kept (ok a, w) f i k = (k a refl).runs w i
  after_kept (err e, w) f i k = i

  pub bind :
      {A B : Type 0} {m : ActionOr E A} {f : A → ActionOr E B}
      → Keeps I m
      → ((a : A) → Keeps I (f a))
      → Keeps I (m >>= f)
  unfolding ◌>>=◌
  bind {m = m} {f = f} p q = record { runs = λ w i. after_kept (m w) f (p.runs w i) (λ a e. q a) }

  pub bind_given :
      {A B : Type 0} {m : ActionOr E A} {f : A → ActionOr E B} {Q : A → Type 0}
      → Gives I m Q
      → ((a : A) → Q a → Keeps I (f a))
      → Keeps I (m >>= f)
  unfolding ◌>>=◌
  bind_given {m = m} {f = f} p q = record {
    runs = λ w i. after_kept (m w) f (p.kept.runs w i) (λ a e. q a (p.answer w a e));
  }

  pub next :
      {A B : Type 0} {m : ActionOr E A} {k : ActionOr E B}
      → Keeps I m
      → Keeps I k
      → Keeps I (m >> k)
  unfolding ◌>>◌
  next p q = bind p (λ a. q)

  pub if_some-Keeps :
      {A B : Type 0} {f : A → ActionOr E B} {m : ActionOr E B} (a : Option A)
      → ((x : A) → Keeps I (f x))
      → Keeps I m
      → Keeps I (if_some a f m)
  unfolding if_some
  if_some-Keeps none p q = q
  if_some-Keeps (some x) p q = p x

  after_gives :
      {A B : Type 0} (x : Result E A × World) (f : A → ActionOr E B) (Q : B → Type 0)
      → ((a : A) → x.0 ≡ ok a → Gives I (f a) Q)
      → (b : B) → (after x f).0 ≡ ok b
      → Q b
  after_gives (ok a, w) f Q k b e = (k a refl).answer w b e
  after_gives (err x, w) f Q k b e = cc

  pub given :
      {A B : Type 0} {m : ActionOr E A} {f : A → ActionOr E B} {P : A → Type 0} {Q : B → Type 0}
      → Gives I m P
      → ((a : A) → P a → Gives I (f a) Q)
      → Gives I (m >>= f) Q
  unfolding ◌>>=◌
  given {m = m} {f = f} {Q = Q} p q = record {
    kept = bind_given p (λ a h. (q a h).kept);
    answer = λ w b e. after_gives (m w) f Q (λ a h. q a (p.answer w a h)) b e;
  }

  pub pure-Gives : {A : Type 0} {Q : A → Type 0} (a : A) → Q a → Gives I {E = E} (pure a) Q
  unfolding pure
  pure-Gives {Q = Q} a q = record {
    kept = pure-Keeps a;
    answer = λ w b e. subst Q (ok_injective e) q;
  }

  pub raise-Gives : {A : Type 0} {Q : A → Type 0} (e : E) → Gives I {A = A} (raise e) Q
  unfolding raise
  raise-Gives e = record { kept = raise-Keeps e; answer = λ w b h. cc }

  pub known : {A : Type 0} {m : ActionOr E A} → Keeps I m → Gives I m (λ a. Unit {0})
  known p = record { kept = p; answer = λ w a e. tt }

  pub or_raise-Gives :
      {A : Type 0} {Q : A → Type 0} (a : Option A) (e : E)
      → ((x : A) → a ≡ some x → Q x)
      → Gives I (or_raise a e) Q
  unfolding or_raise
  or_raise-Gives none e q = raise-Gives e
  or_raise-Gives (some x) e q = pure-Gives x (q x refl)

  pub raise_if-Gives : (c : Bool) (e : E) → Gives I (raise_if c e) (λ u. c ≡ false)
  unfolding raise_if
  raise_if-Gives true e = record { kept = record { runs = λ w i. i }; answer = λ w a h. cc }
  raise_if-Gives false e = record { kept = record { runs = λ w i. i }; answer = λ w a h. refl }

  pub given_next :
      {A B : Type 0} {m : ActionOr E A} {k : ActionOr E B} {P : A → Type 0} {Q : B → Type 0}
      → Gives I m P
      → ((a : A) → P a → Gives I k Q)
      → Gives I (m >> k) Q
  unfolding ◌>>◌
  given_next p q = given p q

  pub next_given :
      {A B : Type 0} {m : ActionOr E A} {k : ActionOr E B} {Q : B → Type 0}
      → Keeps I m
      → Gives I k Q
      → Gives I (m >> k) Q
  unfolding ◌>>◌
  next_given p q = given (known p) (λ a u. q)

  pub if-Gives :
      {A : Type 0} {m k : ActionOr E A} {Q : A → Type 0} (c : Bool)
      → (c ≡ true → Gives I m Q)
      → (c ≡ false → Gives I k Q)
      → Gives I (if c then m else k) Q
  if-Gives true p q = p refl
  if-Gives false p q = q refl

  pub if-Keeps :
      {A : Type 0} {m k : ActionOr E A} (c : Bool)
      → Keeps I m
      → Keeps I k
      → Keeps I (if c then m else k)
  if-Keeps true p q = p
  if-Keeps false p q = q

  pub when-Keeps : {m : ActionOr E (Unit {0})} (c : Bool) → Keeps I m → Keeps I (when c m)
  unfolding when
  when-Keeps true p = p
  when-Keeps false p = pure-Keeps tt

  pub each-Keeps :
      {A : Type 0} {body : A → ActionOr E (Unit {0})} (xs : List A)
      → ((x : A) → Keeps I (body x))
      → Keeps I (each xs body)
  unfolding each
  each-Keeps [] p = pure-Keeps tt
  each-Keeps (x ∷ xs) p = next (p x) (each-Keeps xs p)

  pub collect_each-Keeps :
      {A B : Type 0} {body : A → ActionOr E B} (xs : List A)
      → ((x : A) → Keeps I (body x))
      → Keeps I (collect_each xs body)
  unfolding collect_each
  collect_each-Keeps [] p = pure-Keeps []
  collect_each-Keeps (x ∷ xs) p =
      bind (p x) (λ y. bind (collect_each-Keeps xs p) (λ ys. pure-Keeps (y ∷ ys)))

module _ {env : Environment} {I : World → Type 0} (stable : Stable env I) where
  pub modify-Keeps :
      {E : Type 0} (f : Store → Store) → ((s : Store) → Writes s (f s)) → Keeps I {E = E} (modify f)
  unfolding modify
  modify-Keeps f h = record { runs = λ w i. stable.written w (f w.store) (h w.store) i }

  left_kept :
      {E A : Type 0} (w : World) (x : Result E A × World)
      → I w
      → I x.1
      → I (leave_transaction w x).1
  unfolding leave_transaction
  left_kept w (ok a, v) i j = stable.opened v false j
  left_kept w (err e, v) i j = stable.undone w v i j

  if_kept :
      {E A : Type 0} (c : Bool) (x y : Result E A × World)
      → I x.1
      → I y.1
      → I (if c then x else y).1
  if_kept true x y i j = i
  if_kept false x y i j = j

  pub transaction-Keeps : {E A : Type 0} {m : ActionOr E A} → Keeps I m → Keeps I (transaction m)
  unfolding transaction
  transaction-Keeps {m = m} p = record {
    runs = λ w i.
        if_kept w.in_transaction (m w)
          (leave_transaction w (m (record w { in_transaction = true }))) (p.runs w i)
          (left_kept w (m (record w { in_transaction = true })) i
            (p.runs (record w { in_transaction = true }) (stable.opened w true i)));
  }
