-- ===== src/Upgrade/Tests.antt =====
-- Versions that are two numbers, an API with one pending upgrade, and the theorems at runs on it.

mod Hosted
pub use terraform_provider_ocm.Samples.Upgrades.{
  env, semver, api, pending_of, gate, version_info, parse, text, minor,
}
use terraform_provider_ocm.Prelude.{
  ◌≡◌, refl, String, true, false, ◌==◌, Option, none, some, List, [], ◌∷◌, All, ok, err, OnOk, ℕ,
  ◌+◌, ◌-◌, ap, arith, trim_prefix, nat_eq, ltb, if◌then◌else◌,
}
use terraform_provider_ocm.Common.Attribute.{null, known, is_string_attribute_unknown_or_empty}
use terraform_provider_ocm.Upgrade.{
  PoliciesClient, cluster_policies, Semver, pending, Policy, ClusterUpgrade, VersionInfo, Gate,
  unanswered, refused, Request, delete_policy, dry_run, add_policy, Api, Env, acks_missing,
  above_requested, ten_minutes,
}
use terraform_provider_ocm.Upgrade.Policies.{list_pages, check_and_cancel_upgrades}
use terraform_provider_ocm.Upgrade.Policies.Paging.{Serves, list_pages-all}
use terraform_provider_ocm.Client.Paging.Laws.{page_of}
use terraform_provider_ocm.Upgrade.Policies.Cancelling.{Answers, check_and_cancel-Answers}
use terraform_provider_ocm.Upgrade.Versions.{ClusterRosaClassicState, desired_version}
use terraform_provider_ocm.Upgrade.Gates.{
  schedule_upgrade, get_ocm_version_minor, ack_required, is_invalid,
}
use terraform_provider_ocm.Upgrade.Gates.Laws.{schedule-unacked, schedule-unanswered}
use terraform_provider_ocm.Upgrade.Cluster.{upgrade_cluster_if_needed, requested_version_changed}
use terraform_provider_ocm.Upgrade.Cluster.Allowed.{AllAllowed}
use terraform_provider_ocm.Upgrade.Cluster.Laws.{upgrade-AllAllowed, upgrade-downgrade}

-- The policies of the cluster of the tests.
abbrev c1 : PoliciesClient
c1 = cluster_policies "c1"

abbrev pending_policy : Policy
pending_policy = pending_of c1

abbrev env_unanswered : Env ℕ
env_unanswered = record env { api = record api { on_dry_run = λ h cid version. unanswered } }

abbrev state : ClusterRosaClassicState
state = record {
  id = known "c1";
  version = known "4.14.0";
  current_version = known "4.14.0";
  channel_group = null;
  upgrade_acks_for = null;
}

abbrev plan : ClusterRosaClassicState
plan = record state { version = known "openshift-v4.15.0"; upgrade_acks_for = known "4.15" }

abbrev newer_state : ClusterRosaClassicState
newer_state = record state { current_version = known "4.16.0" }

serves : Serves env c1 (pending_policy ∷ [])
serves h k =
    let same : k + 1 - 1 ≡ k = omega arith in ap (λ j. some (page_of (pending_policy ∷ []) j)) same

list_pages-all_example : (list_pages env c1 1 1 []).0 ≡ ok (pending_policy ∷ [])
list_pages-all_example = list_pages-all env c1 (pending_policy ∷ []) serves 1 [] (omega arith)

abbrev waiting : List ClusterUpgrade
waiting = record { policy = pending_policy; state = pending } ∷ []

abbrev IsDeletion : Request → Type 0
IsDeletion request = request ≡ delete_policy c1 "p1"

check_and_cancel-Answers_example :
    All IsDeletion (check_and_cancel_upgrades env waiting 15 []).1
    × OnOk
        (Answers env 15 (1000 + ten_minutes) false waiting)
        (check_and_cancel_upgrades env waiting 15 []).0
check_and_cancel-Answers_example =
    check_and_cancel-Answers env 15 waiting IsDeletion [] ((λ may. refl), tt) tt

gate_is_valid : is_invalid (gate ∷ []) ≡ false
unfolding is_invalid
gate_is_valid = refl

ack_is_required : ack_required (gate ∷ []) ≡ true
unfolding ack_required
ack_is_required = refl

minor_of_15 : get_ocm_version_minor env "4.15.0" ≡ some "4.15"
unfolding get_ocm_version_minor
minor_of_15 = refl

minor_of_15_unanswered : get_ocm_version_minor env_unanswered "4.15.0" ≡ some "4.15"
unfolding get_ocm_version_minor
minor_of_15_unanswered = refl

schedule-unanswered_example :
    (schedule_upgrade env_unanswered c1 15 "" []).1
    ≡ add_policy c1 "4.15.0" (1000 + ten_minutes) ∷ dry_run c1 "4.15.0" ∷ []
schedule-unanswered_example =
    schedule-unanswered env_unanswered c1 15 "" "4.15" [] refl refl minor_of_15_unanswered

upgrade-AllAllowed_example :
    AllAllowed env state plan (upgrade_cluster_if_needed env 1 state plan []).1
upgrade-AllAllowed_example = upgrade-AllAllowed env state plan 1 [] tt

plan_is_set : is_string_attribute_unknown_or_empty plan.version ≡ false
unfolding is_string_attribute_unknown_or_empty
plan_is_set = refl

newer_is_set : is_string_attribute_unknown_or_empty newer_state.current_version ≡ false
unfolding is_string_attribute_unknown_or_empty
newer_is_set = refl

-- The old prefix of a version is taken off.
wants_15 : desired_version env plan ≡ some 15
unfolding desired_version trim_prefix
wants_15 = refl
