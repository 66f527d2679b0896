-- ===== src/Gate/Drift.antt =====
-- `drift` of TrustedChangeGate (trusted_change.py). `sorted` is Python's on texts and pairs of
-- texts; equal items are not told apart, so that its stability does not show.
use Prim.Native.Nat.{Ordering}
use Prim.Native.String.{compare}
use aisys_adm.Prelude.{
  String, Bool, true, false, not, ◌&&◌, ◌||◌, ◌==◌, Option, some, List, [], ◌∷◌, map, if◌then◌else◌,
}
use aisys_adm.Models.Snapshots.{PackageUpdate}
use aisys_adm.Models.Collected.{HostSnapshot}
use aisys_adm.Gate.Decision.{GateCode, GateDecision, allow, deny_safety, deny_approval_saying}

abbrev pub text_leb : String → String → Bool
text_leb s t = elim (compare s t) [ Ordering.gt ↦ false | _ ↦ true ]

abbrev pub pair_leb : String × String → String × String → Bool
pair_leb (a, b) (c, d) = elim (compare a c) [
  | Ordering.lt ↦ true
  | Ordering.gt ↦ false
  | Ordering.eq ↦ text_leb b d
]

abbrev pub same_pair : String × String → String × String → Bool
same_pair (a, b) (c, d) = a == c && b == d

module _ {ℓ} {A : Type ℓ} where
  unfoldable pub insert_sorted : (A → A → Bool) → A → List A → List A
  insert_sorted le x [] = x ∷ []
  insert_sorted le x (y ∷ ys) =
      let later = insert_sorted le x ys in if le x y then x ∷ y ∷ ys else y ∷ later

  unfoldable pub sorted : (A → A → Bool) → List A → List A
  sorted le [] = []
  sorted le (x ∷ xs) = insert_sorted le x (sorted le xs)

  -- xs == ys
  abbrev pub same_list : (A → A → Bool) → List A → List A → Bool
  same_list same [] [] = true
  same_list same [] (y ∷ ys) = false
  same_list same (x ∷ xs) [] = false
  same_list same (x ∷ xs) (y ∷ ys) = same x y && same_list same xs ys

abbrev pub same_bool : Bool → Bool → Bool
same_bool true b = b
same_bool false b = not b

abbrev pub update_key : PackageUpdate → String × String
update_key item = (item.name, item.candidate_version)

unfoldable pub sorted_packages : HostSnapshot → List (String × String)
unfolding sorted insert_sorted
sorted_packages snapshot = sorted pair_leb (map update_key snapshot.package_summary.updates)

unfoldable pub sorted_failures : HostSnapshot → List String
unfolding sorted insert_sorted
sorted_failures snapshot = sorted text_leb snapshot.service_summary.failed_units

unfoldable pub drift : Option HostSnapshot → Option HostSnapshot → GateDecision
unfolding sorted_packages sorted_failures
drift (some approved) (some current) =
    let changed =
      not (same_list same_pair (sorted_packages approved) (sorted_packages current))
      || not (same_list ◌==◌ (sorted_failures approved) (sorted_failures current))
      || not (
          same_bool approved.package_summary.reboot_required_now
            current.package_summary.reboot_required_now) in
    if changed then deny_safety GateCode.host_state_drift else allow
drift _ _ =
    deny_approval_saying GateCode.evidence_incomplete "Approved scan snapshot is unavailable"
