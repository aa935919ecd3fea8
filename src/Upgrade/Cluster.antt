-- ===== src/Upgrade/Cluster.antt =====
-- upgradeClusterIfNeeded of cluster_rosa_classic_resource.go.
pub mod Allowed
pub mod Laws
use terraform_provider_ocm.Prelude.{
  ℕ, String, Bool, true, false, not, ◌&&◌, ◌||◌, ◌==◌, Option, none, some, List, [], ◌∷◌,
  if◌then◌else◌, Result, ok, err,
}
use terraform_provider_ocm.Common.Attribute.{
  Value, value_string, is_string_attribute_unknown_or_empty,
}
use terraform_provider_ocm.Client.{
  some_or_fail, fail_unless, pure, lift, send, and_then, ◌>>=◌, ◌>>◌,
}
use terraform_provider_ocm.Upgrade.{
  cluster_policies, Request, History, Env, UpgradeError, current_version_not_parsed,
  desired_version_not_parsed, above_requested, Action, fail,
}
use terraform_provider_ocm.Upgrade.Policies.{get_scheduled_upgrades, check_and_cancel_upgrades}
use terraform_provider_ocm.Upgrade.Versions.{
  ClusterRosaClassicState, version_prefix, desired_version, validate_upgrade,
}
use terraform_provider_ocm.Upgrade.Gates.{schedule_upgrade}

-- Whether the plan asks for another version than the state did.
unfoldable pub requested_version_changed : ClusterRosaClassicState → ClusterRosaClassicState → Bool
requested_version_changed state plan = not (
    not (is_string_attribute_unknown_or_empty plan.version)
    && not (is_string_attribute_unknown_or_empty state.version)
    && (value_string plan.version == value_string state.version))

module _ {V : Type 0} (env : Env V) where
  open env use {semver}

  unfoldable pub validate_unless :
      Bool → ClusterRosaClassicState → ClusterRosaClassicState → Action (Unit {0})
  validate_unless true state plan = pure tt
  validate_unless false state plan = validate_upgrade env state plan

  unfoldable pub schedule_when :
      Bool → ClusterRosaClassicState → ClusterRosaClassicState → V → Action (Unit {0})
  schedule_when false state plan desired = pure tt
  schedule_when true state plan desired =
      schedule_upgrade env (cluster_policies (value_string state.id)) desired
        (value_string plan.upgrade_acks_for)

  -- The desired version is not below the current one.
  unfoldable pub upgrade_to :
      ℕ → ClusterRosaClassicState → ClusterRosaClassicState → V → V → Action ClusterRosaClassicState
  upgrade_to fuel state plan current desired = do
    let canceling_upgrade_only = semver.equal desired current
    validate_unless canceling_upgrade_only state plan
    upgrades ← get_scheduled_upgrades env fuel (cluster_policies (value_string state.id))
    correct_upgrade_pending ← check_and_cancel_upgrades env upgrades desired
    schedule_when (not correct_upgrade_pending && not canceling_upgrade_only) state plan desired
    pure (record state { version = plan.version; upgrade_acks_for = plan.upgrade_acks_for })

  unfoldable pub compare_versions :
      ℕ → ClusterRosaClassicState → ClusterRosaClassicState → V → V → Action ClusterRosaClassicState
  compare_versions fuel state plan current desired =
      if semver.greater_than current desired
      then (if requested_version_changed state plan then fail above_requested else pure state)
      else upgrade_to fuel state plan current desired

  -- The state that is left, on fuel for the pages of policies.
  unfoldable pub upgrade_cluster_if_needed :
      ℕ → ClusterRosaClassicState → ClusterRosaClassicState → Action ClusterRosaClassicState
  upgrade_cluster_if_needed fuel state plan =
      if is_string_attribute_unknown_or_empty plan.version
        || is_string_attribute_unknown_or_empty state.current_version
      then pure state
      else (do
        current ←
            some_or_fail (semver.parse (value_string state.current_version))
              current_version_not_parsed
        desired ← some_or_fail (desired_version env plan) desired_version_not_parsed
        compare_versions fuel state plan current desired)
