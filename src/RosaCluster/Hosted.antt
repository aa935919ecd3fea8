-- ===== src/RosaCluster/Hosted.antt =====
-- What provider/clusterrosa/hcp/resource.go has of this code, which is word for word the classic
-- code: it is that code's model, over the hosted cluster's state.
use terraform_provider_ocm.Prelude.{ℕ, String, Bool, Option, List, ℤ, Dict}
use terraform_provider_ocm.Common.Framework.{Framework}
use terraform_provider_ocm.Common.Response.{Diagnostic, Response}
use terraform_provider_ocm.RosaCluster.Destroy
use terraform_provider_ocm.RosaCluster.Destroy.{DestroyState, History, Api, Action}
use terraform_provider_ocm.RosaCluster.Channel
use terraform_provider_ocm.RosaCluster.Channel.{ChannelState}
use terraform_provider_ocm.RosaCluster.Properties
use terraform_provider_ocm.RosaCluster.Properties.{PropertiesState}

module _ (api : Api) where
  unfoldable pub delete : DestroyState → History → Response DestroyState × History
  delete = Destroy.delete api

  unfoldable pub retry_cluster_not_found_with_timeout : ℕ → ℕ → String → ℤ → Action (Option Bool)
  retry_cluster_not_found_with_timeout = Destroy.retry_cluster_not_found_with_timeout api

  unfoldable pub wait_till_cluster_is_not_found_with_timeout : String → ℤ → Action (Option Bool)
  wait_till_cluster_is_not_found_with_timeout =
      Destroy.wait_till_cluster_is_not_found_with_timeout api

unfoldable pub validate_channel_group_and_version_changes :
    ChannelState → ChannelState → List Diagnostic
validate_channel_group_and_version_changes = Channel.validate_channel_group_and_version_changes

unfoldable pub should_patch_properties : Dict String → PropertiesState → PropertiesState → Bool
should_patch_properties = Properties.should_patch_properties

unfoldable pub patch_properties :
    Dict String
    → Framework
    → PropertiesState
    → PropertiesState
    → List Diagnostic × Option (Dict String)
patch_properties = Properties.patch_properties
