-- ===== src/Upgrade/Hosted.antt =====
-- Upgrades of a cluster with a hosted control plane: the control plane's, of
-- provider/clusterrosa/hcp, and a node pool's, of provider/machinepool/hcp. Both are written as the
-- classic ones are, but for where the available versions come from; an `Env` is that of one of them,
-- with its policies.
pub mod ControlPlane
pub mod NodePool
pub mod Offers
pub mod Laws
use terraform_provider_ocm.Prelude.{
  ℕ, String, Bool, true, false, not, ◌&&◌, ◌||◌, ◌==◌, Option, List, if◌then◌else◌, trim_prefix,
}
use terraform_provider_ocm.Common.Attribute.{
  Value, value_string, is_string_attribute_unknown_or_empty,
}
use terraform_provider_ocm.Client.{some_or_fail, pure, send, ◌>>=◌, ◌>>◌}
use terraform_provider_ocm.Upgrade.{
  PoliciesClient, VersionInfo, ClusterVersion, get_cluster_version, get_pool_version, Env,
  version_information_failed, current_version_not_parsed, desired_version_not_parsed,
  above_requested, Action, fail,
}
use terraform_provider_ocm.Upgrade.Policies.{get_scheduled_upgrades, check_and_cancel_upgrades}
use terraform_provider_ocm.Upgrade.Versions.{version_prefix, versions_with, validate_in}
use terraform_provider_ocm.Upgrade.Gates.{schedule_upgrade}

-- The attributes of the state of a hosted cluster or a node pool that an upgrade reads or writes.
pub record Versioned : Type 0 where
  pub version : Value String
  pub current_version : Value String
  pub upgrade_acks_for : Value String

-- Whether the plan asks for another version than the state did.
unfoldable pub version_changed : Versioned → Versioned → Bool
version_changed state plan = not (
    not (is_string_attribute_unknown_or_empty plan.version)
    && not (is_string_attribute_unknown_or_empty state.version)
    && (value_string plan.version == value_string state.version))

module _ {V : Type 0} (env : Env V) where
  open env use {semver, api}

  -- What the cluster says of its version.
  unfoldable pub fetch_cluster_version : String → Action ClusterVersion
  fetch_cluster_version cluster_id = do
    reply ← send (get_cluster_version cluster_id) (λ h. api.on_get_cluster_version h cluster_id)
    some_or_fail reply version_information_failed

  -- The versions that are enabled for a hosted control plane.
  unfoldable pub hosted_versions : ClusterVersion → Action (List VersionInfo)
  hosted_versions source =
      versions_with env (λ info. info.hosted_enabled) source.channel_group source.available_upgrades

  -- `semver.NewVersion` of the plan's version without the old prefix.
  unfoldable pub trimmed_version : Versioned → Option V
  trimmed_version plan = semver.parse (trim_prefix (value_string plan.version) version_prefix)

  -- The policies and the action that gets the available versions.
  module _ (client : PoliciesClient) (available : Action (List VersionInfo)) where
    unfoldable pub validate_unless : Bool → Versioned → Action (Unit {0})
    validate_unless true plan = pure tt
    validate_unless false plan = validate_in env available (trimmed_version plan)

    unfoldable pub schedule_when : Bool → Versioned → V → Action (Unit {0})
    schedule_when false plan desired = pure tt
    schedule_when true plan desired =
        schedule_upgrade env client desired (value_string plan.upgrade_acks_for)

    unfoldable pub upgrade_to : ℕ → Versioned → Versioned → V → V → Action Versioned
    upgrade_to fuel state plan current desired = do
      let canceling_upgrade_only = semver.equal desired current
      validate_unless canceling_upgrade_only plan
      upgrades ← get_scheduled_upgrades env fuel client
      correct_upgrade_pending ← check_and_cancel_upgrades env upgrades desired
      schedule_when (not correct_upgrade_pending && not canceling_upgrade_only) plan desired
      pure (record state { version = plan.version; upgrade_acks_for = plan.upgrade_acks_for })

    unfoldable pub compare_versions : ℕ → Versioned → Versioned → V → V → Action Versioned
    compare_versions fuel state plan current desired =
        if semver.greater_than current desired
        then (if version_changed state plan then fail above_requested else pure state)
        else upgrade_to fuel state plan current desired

    -- The state that is left, on fuel for the pages of policies.
    unfoldable pub upgrade_if_needed : ℕ → Versioned → Versioned → Action Versioned
    upgrade_if_needed fuel state plan =
        if is_string_attribute_unknown_or_empty plan.version
          || is_string_attribute_unknown_or_empty state.current_version
        then pure state
        else (do
          current ←
              some_or_fail (semver.parse (value_string state.current_version))
                current_version_not_parsed
          desired ←
              some_or_fail (semver.parse (value_string plan.version)) desired_version_not_parsed
          compare_versions fuel state plan current desired)
