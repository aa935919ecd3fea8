-- ===== src/Upgrade/Hosted/ControlPlane.antt =====
-- The upgrades of the control plane: provider/clusterrosa/hcp/upgrade/upgrade.go, and
-- upgradeClusterIfNeeded, validateUpgrade and scheduleUpgrade of provider/clusterrosa/hcp/resource.go.
-- What is word for word the classic code, over the control plane's policies, is that code's model.
use terraform_provider_ocm.Prelude.{ℕ, String, Bool, Option, List}
use terraform_provider_ocm.Client.{◌>>=◌}
use terraform_provider_ocm.Upgrade.{
  control_plane_policies, VersionInfo, ClusterUpgrade, Gate, DryRun, Env, Action,
}
use terraform_provider_ocm.Upgrade.Policies
use terraform_provider_ocm.Upgrade.Versions.{validate_in}
use terraform_provider_ocm.Upgrade.Gates
use terraform_provider_ocm.Upgrade.Hosted.{
  Versioned, fetch_cluster_version, hosted_versions, trimmed_version, upgrade_if_needed,
}

module _ {V : Type 0} (env : Env V) where
  unfoldable pub get_available_upgrade_versions : String → Action (List VersionInfo)
  get_available_upgrade_versions cluster_id = do
    source ← fetch_cluster_version env cluster_id
    hosted_versions env source

  unfoldable pub get_scheduled_upgrades : ℕ → String → Action (List ClusterUpgrade)
  get_scheduled_upgrades fuel cluster_id =
      Policies.get_scheduled_upgrades env fuel (control_plane_policies cluster_id)

  unfoldable pub check_and_cancel_upgrades : List ClusterUpgrade → V → Action Bool
  check_and_cancel_upgrades = Policies.check_and_cancel_upgrades env

  unfoldable pub ack_version_gate : String → String → Action (Unit {0})
  ack_version_gate = Gates.ack_version_gate env

  unfoldable pub get_missing_gate_agreements : DryRun → Action (List Gate)
  get_missing_gate_agreements = Gates.missing_gates

  unfoldable pub check_missing_agreements : String → String → Action (List Gate)
  check_missing_agreements version cluster_id =
      Gates.check_missing_agreements env version (control_plane_policies cluster_id)

  unfoldable pub get_ocm_version_minor : String → Option String
  get_ocm_version_minor = Gates.get_ocm_version_minor env

  unfoldable pub validate_upgrade : String → Versioned → Action (Unit {0})
  validate_upgrade cluster_id plan =
      validate_in env (get_available_upgrade_versions cluster_id) (trimmed_version env plan)

  unfoldable pub schedule_upgrade : String → V → String → Action (Unit {0})
  schedule_upgrade cluster_id = Gates.schedule_upgrade env (control_plane_policies cluster_id)

  unfoldable pub upgrade_cluster_if_needed : ℕ → String → Versioned → Versioned → Action Versioned
  upgrade_cluster_if_needed fuel cluster_id =
      upgrade_if_needed env (control_plane_policies cluster_id)
        (get_available_upgrade_versions cluster_id) fuel
