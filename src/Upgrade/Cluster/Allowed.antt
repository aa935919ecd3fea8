-- ===== src/Upgrade/Cluster/Allowed.antt =====
-- Which upgrades of a classic cluster may be asked for.
use terraform_provider_ocm.Prelude.{◌≡◌, false, some}
use terraform_provider_ocm.Common.Attribute.{value_string}
use terraform_provider_ocm.Upgrade.{cluster_policies, Env, History}
use terraform_provider_ocm.Upgrade.Requests
use terraform_provider_ocm.Upgrade.Versions.{ClusterRosaClassicState, desired_version}
use terraform_provider_ocm.Upgrade.Versions.Laws.{IsReachable, current_id}

module _ {V : Type 0} (env : Env V) (state plan : ClusterRosaClassicState) where
  -- The plan's version may be upgraded to: it is neither below the current version nor equal to it,
  -- and the API lists it as an available upgrade of the current version that is enabled for ROSA.
  abbrev pub IsUpgrade : V → Type 0
  IsUpgrade desired =
      (current : V) × (env.semver.parse (value_string state.current_version) ≡ some current)
      × (desired_version env plan ≡ some desired)
      × (env.semver.greater_than current desired ≡ false)
      × (env.semver.equal desired current ≡ false)
      × IsReachable env (current_id env state) desired

  abbrev pub AllAllowed : History → Type 0
  AllAllowed = Requests.AllAllowed env (cluster_policies (value_string state.id)) IsUpgrade
