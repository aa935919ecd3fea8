-- ===== src/Upgrade/Hosted/Offers.antt =====
-- Which versions a hosted control plane or a node pool may be upgraded to.
use terraform_provider_ocm.Prelude.{
  ◌≡◌, ◌∷◌, String, Bool, true, some, List, All, OnOk, OnOk-weaken, ◌∙◌,
}
use terraform_provider_ocm.Client.Logic.{
  Ensures, >>=-Ensures, weaken-Ensures, some_or_fail-Ensures, send-Answers,
}
use terraform_provider_ocm.Upgrade.{
  get_version, VersionInfo, ClusterVersion, History, Env, get_cluster_version, get_pool_version,
  version_information_failed, UpgradeError,
}
use terraform_provider_ocm.Upgrade.Versions.Laws.{
  IsOffered, IsServed, is_among-IsOffered, is_in_self, versions_with-IsServed,
}
use terraform_provider_ocm.Upgrade.Versions.{is_among}
use terraform_provider_ocm.Upgrade.Hosted.{fetch_cluster_version, hosted_versions}
use terraform_provider_ocm.Upgrade.Hosted.ControlPlane
use terraform_provider_ocm.Upgrade.Hosted.NodePool

-- The test of a hosted control plane.
abbrev pub for_hosted : VersionInfo → Bool
for_hosted info = info.hosted_enabled

-- What the API answers, after some requests, for the versions of this cluster and its node pools.
module _ {V : Type 0} (env : Env V) (cid : String) where
  abbrev pub SaysCluster : ClusterVersion → Type 0
  SaysCluster version = (h : History) × (env.api.on_get_cluster_version h cid ≡ some version)

  abbrev pub SaysPool : String → List String → Type 0
  SaysPool pool upgrades = (h : History) × (env.api.on_get_pool_version h cid pool ≡ some upgrades)

  -- The available upgrades are the cluster's.
  abbrev pub OffersControlPlane : V → Type 0
  OffersControlPlane desired =
      (version : ClusterVersion) × SaysCluster version
      × IsOffered env for_hosted version.channel_group version.available_upgrades desired

  abbrev pub ServesControlPlane : List VersionInfo → Type 0
  ServesControlPlane infos =
      (version : ClusterVersion) × SaysCluster version
      × All (IsServed env for_hosted version.channel_group version.available_upgrades) infos

  -- The available upgrades are the pool's, in the channel group of the cluster.
  abbrev pub OffersPool : String → V → Type 0
  OffersPool pool desired =
      (version : ClusterVersion) × (upgrades : List String) × SaysCluster version
      × SaysPool pool upgrades
      × IsOffered env for_hosted version.channel_group upgrades desired

  abbrev pub ServesPool : String → List VersionInfo → Type 0
  ServesPool pool infos =
      (version : ClusterVersion) × (upgrades : List String) × SaysCluster version
      × SaysPool pool upgrades
      × All (IsServed env for_hosted version.channel_group upgrades) infos

  pub control_plane_offers :
      (desired : V) (infos : List VersionInfo)
      → ServesControlPlane infos
      → OnOk (λ found. found ≡ true → OffersControlPlane desired) (is_among env desired infos)
  control_plane_offers desired infos (version, said, served) =
      OnOk-weaken _ (λ found. found ≡ true → OffersControlPlane desired)
        (is_among env desired infos) (λ found offered e. (version, said, offered e))
        (is_among-IsOffered env for_hosted version.channel_group version.available_upgrades desired
          infos served)

  pub pool_offers :
      (pool : String) (desired : V) (infos : List VersionInfo)
      → ServesPool pool infos
      → OnOk (λ found. found ≡ true → OffersPool pool desired) (is_among env desired infos)
  pool_offers pool desired infos (version, upgrades, said, says, served) =
      OnOk-weaken _ (λ found. found ≡ true → OffersPool pool desired) (is_among env desired infos)
        (λ found offered e. (version, upgrades, said, says, offered e))
        (is_among-IsOffered env for_hosted version.channel_group upgrades desired infos served)

  module _ (P : History → Type 0)
      (keep : (id : String) (h : History) → P h → P (get_version id ∷ h))
      (keep_cluster : (h : History) → P h → P (get_cluster_version cid ∷ h)) where
    fetch_cluster_version-Says : Ensures P (fetch_cluster_version env cid) SaysCluster
    unfolding fetch_cluster_version
    fetch_cluster_version-Says =
        >>=-Ensures P (λ reply. (h : History) × (env.api.on_get_cluster_version h cid ≡ reply))
          SaysCluster _ _
          (send-Answers UpgradeError P (get_cluster_version cid)
            (λ h. env.api.on_get_cluster_version h cid) keep_cluster)
          (λ reply (h, e).
            weaken-Ensures P (λ version. reply ≡ some version) SaysCluster _
              (λ version said. (h, e ∙ said))
              (some_or_fail-Ensures P reply version_information_failed))

    hosted_versions-IsServed :
        (source : ClusterVersion)
        → Ensures P
            (hosted_versions env source)
            (All (IsServed env for_hosted source.channel_group source.available_upgrades))
    unfolding hosted_versions
    hosted_versions-IsServed source =
        versions_with-IsServed env for_hosted source.channel_group source.available_upgrades P keep
          source.available_upgrades (is_in_self source.available_upgrades)

    pub control_plane_serves :
        Ensures P (ControlPlane.get_available_upgrade_versions env cid) ServesControlPlane
    unfolding ControlPlane.get_available_upgrade_versions
    control_plane_serves =
        >>=-Ensures P SaysCluster ServesControlPlane _ _ fetch_cluster_version-Says (λ source said.
          weaken-Ensures P
            (All (IsServed env for_hosted source.channel_group source.available_upgrades))
            ServesControlPlane _ (λ infos served. (source, said, served))
            (hosted_versions-IsServed source))

    pub pool_serves :
        (pool : String)
        → ((h : History) → P h → P (get_pool_version cid pool ∷ h))
        → Ensures P (NodePool.get_available_upgrade_versions env cid pool) (ServesPool pool)
    unfolding NodePool.get_available_upgrade_versions
    pool_serves pool keep_pool =
        >>=-Ensures P SaysCluster (ServesPool pool) _ _ fetch_cluster_version-Says (λ source said.
          >>=-Ensures P (λ reply. (h : History) × (env.api.on_get_pool_version h cid pool ≡ reply))
            (ServesPool pool) _ _
            (send-Answers UpgradeError P (get_pool_version cid pool)
              (λ h. env.api.on_get_pool_version h cid pool) keep_pool)
            (λ reply (h, e).
              >>=-Ensures P (λ upgrades. reply ≡ some upgrades) (ServesPool pool) _ _
                (some_or_fail-Ensures P reply version_information_failed)
                (λ upgrades says.
                  weaken-Ensures P (All (IsServed env for_hosted source.channel_group upgrades))
                    (ServesPool pool) _
                    (λ infos served. (source, upgrades, said, (h, e ∙ says), served))
                    (hosted_versions-IsServed (record {
                      channel_group = source.channel_group;
                      available_upgrades = upgrades;
                    })))))
