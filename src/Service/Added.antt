-- ===== src/Service/Added.antt =====
-- What a host that the service has accepted brings along for rollback snapshots (`create_host` of
-- service.py).
use aisys_adm.Prelude.{String, Bool, true, false, ◌≡◌, ◌≢◌, ◌⊎◌, inl, inr, arith, Option, ◌is◌}
use aisys_adm.Models.Enums.{SnapshotPlatform, snapshot_platform_enum}
use aisys_adm.Models.Values.{has_text, nonempty}
use aisys_adm.Models.Hosts.{Host, HostInput}
use aisys_adm.Gate.Execution.{protection_planned}
use aisys_adm.Gate.Eligibility.Conditions.{SnapshotReady}
use aisys_adm.Models.Remediations.{Remediation}
use aisys_adm.Service.World.{World, Environment, ok}
use aisys_adm.Service.Hosts.{validate_host_input, create_host}
use aisys_adm.Service.Kept.Rules.{
  Gives, given, given_next, next_given, known, if-Gives, pure-Gives, raise_if-Gives, gets-Keeps,
  or_raise-Keeps,
}
use aisys_adm.Service.Kept.Records.{now-Keeps, fresh-Keeps, save_host-Keeps, audit-Keeps}
use aisys_adm.Service.Kept.Hosts.{check_credential-Keeps, save_schedule-Keeps}
use aisys_adm.Service.Kept.Served.{Anything, anything}

-- A host on no snapshot platform, or with all that its snapshots need.
abbrev pub IsProtected : SnapshotPlatform → Option String → Option String → Bool → Type 0
IsProtected platform credential target has_metadata =
    (platform ≡ SnapshotPlatform.none)
    ⊎ ((has_text credential ≡ true) × ((has_text target ≡ true) ⊎ (has_metadata ≡ true)))

abbrev InputIsProtected : HostInput → Type 0
InputIsProtected input =
    IsProtected input.snapshot_platform input.snapshot_credential_id input.snapshot_target_id
      (nonempty input.snapshot_provider_metadata)

module _ (env : Environment) where
  validate_host_input-Gives :
      (input : HostInput) → Gives Anything (validate_host_input input) (λ u. InputIsProtected input)
  unfolding validate_host_input
  validate_host_input-Gives input =
      if-Gives (input.snapshot_platform is SnapshotPlatform.none)
        (λ e. pure-Gives tt (inl (ground arith)))
        (λ e. given_next (raise_if-Gives _ _) (λ u credential.
          given_next (raise_if-Gives _ _) (λ v target. given (known (gets-Keeps _)) (λ found x.
            given (known (or_raise-Keeps found _)) (λ found_credential y. record {
              kept = check_credential-Keeps (anything env) _ found_credential;
              answer = λ w a k. inr (ground arith);
            })))))

  create_host-Gives :
      (input : HostInput) (actor : String)
      → Gives Anything (create_host env input actor) (λ host.
        IsProtected host.snapshot_platform host.snapshot_credential_id host.snapshot_target_id
          (nonempty host.snapshot_provider_metadata))
  unfolding create_host
  create_host-Gives input actor = given_next (validate_host_input-Gives input) (λ u fit.
      given (known (now-Keeps (anything env))) (λ t v.
        given (known (fresh-Keeps (anything env) "host")) (λ id x.
          next_given (save_host-Keeps (anything env) _) (
            next_given (save_schedule-Keeps (anything env) id _ actor)
              (next_given (audit-Keeps (anything env) _ _ _ _ _) (pure-Gives _ fit))))))

  -- The host that a creation answers with has its snapshot protection ready for every plan, where
  -- the plan does not count on a snapshot or the host has a snapshot platform.
  pub create_host-SnapshotReady :
      (input : HostInput) (actor : String) (w : World) (host : Host) (r : Remediation)
      → (create_host env input actor w).0 ≡ ok host
      → (protection_planned r ≡ false) ⊎ (host.snapshot_platform ≢ SnapshotPlatform.none)
      → SnapshotReady r host
  create_host-SnapshotReady input actor w host r e planned = record {
    planned = planned;
    equipped = inr ((create_host-Gives input actor).answer w host e);
  }
