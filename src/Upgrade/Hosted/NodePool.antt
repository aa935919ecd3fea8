-- ===== src/Upgrade/Hosted/NodePool.antt =====
-- The upgrades of a node pool: provider/machinepool/hcp/upgrade/upgrade.go, and
-- upgradeMachinePoolIfNeeded, validateUpgrade and scheduleUpgrade of machine_pool_resource.go there.
-- What is word for word the classic code, over the pool's policies, is that code's model.
use terraform_provider_ocm.Prelude.{ℕ, String, Bool, Option, List}
use terraform_provider_ocm.Client.{some_or_fail, send, ◌>>=◌}
use terraform_provider_ocm.Upgrade.{
  node_pool_policies, VersionInfo, ClusterUpgrade, Gate, DryRun, Env, Action, get_pool_version,
  version_information_failed,
}
use terraform_provider_ocm.Upgrade.Policies
use terraform_provider_ocm.Upgrade.Versions.{validate_in}
use terraform_provider_ocm.Upgrade.Gates
use terraform_provider_ocm.Upgrade.Hosted.{
  Versioned, fetch_cluster_version, hosted_versions, trimmed_version, upgrade_if_needed,
}

module _ {V : Type 0} (env : Env V) where
  -- The channel group is the cluster's, and the available upgrades are the pool's.
  unfoldable pub get_available_upgrade_versions : String → String → Action (List VersionInfo)
  get_available_upgrade_versions cluster_id pool_id = do
    source ← fetch_cluster_version env cluster_id
    reply ←
        send (get_pool_version cluster_id pool_id)
          (λ h. env.api.on_get_pool_version h cluster_id pool_id)
    upgrades ← some_or_fail reply version_information_failed
    hosted_versions env
        (record { channel_group = source.channel_group; available_upgrades = upgrades })

  unfoldable pub get_scheduled_upgrades : ℕ → String → String → Action (List ClusterUpgrade)
  get_scheduled_upgrades fuel cluster_id pool_id =
      Policies.get_scheduled_upgrades env fuel (node_pool_policies cluster_id pool_id)

  unfoldable pub check_and_cancel_upgrades : List ClusterUpgrade → V → Action Bool
  check_and_cancel_upgrades = Policies.check_and_cancel_upgrades env

  unfoldable pub ack_version_gate : String → String → Action (Unit {0})
  ack_version_gate = Gates.ack_version_gate env

  unfoldable pub get_missing_gate_agreements : DryRun → Action (List Gate)
  get_missing_gate_agreements = Gates.missing_gates

  unfoldable pub check_missing_agreements : String → String → String → Action (List Gate)
  check_missing_agreements version cluster_id pool_id =
      Gates.check_missing_agreements env version (node_pool_policies cluster_id pool_id)

  unfoldable pub get_ocm_version_minor : String → Option String
  get_ocm_version_minor = Gates.get_ocm_version_minor env

  unfoldable pub validate_upgrade : String → String → Versioned → Action (Unit {0})
  validate_upgrade cluster_id pool_id plan =
      validate_in env (get_available_upgrade_versions cluster_id pool_id) (trimmed_version env plan)

  unfoldable pub schedule_upgrade : String → String → V → String → Action (Unit {0})
  schedule_upgrade cluster_id pool_id =
      Gates.schedule_upgrade env (node_pool_policies cluster_id pool_id)

  unfoldable pub upgrade_machine_pool_if_needed :
      ℕ → String → String → Versioned → Versioned → Action Versioned
  upgrade_machine_pool_if_needed fuel cluster_id pool_id =
      upgrade_if_needed env (node_pool_policies cluster_id pool_id)
        (get_available_upgrade_versions cluster_id pool_id) fuel
