-- ===== src/RosaCluster/Tests.antt =====
-- A cluster whose deletion is polled, and whose properties are patched, and the theorems at them.
use terraform_provider_ocm.Prelude.{
  ap, ok, ◌-◌, arith, List, ◌+◌, ◌≤◌, String, ◌≡◌, ◌⊎◌, ◌↔◌, refl, true, false, some, [], ◌∷◌, map,
  pos, Dict, lookup, contains_key, nat_eq, length, if◌then◌else◌,
}
use terraform_provider_ocm.Common.Attribute.{null, known, map_elements}
use terraform_provider_ocm.Common.Framework.{known_entry}
use terraform_provider_ocm.Common.Patch.{should_patch_map, map_eq}
use terraform_provider_ocm.Common.Response.{warning, removed}
use terraform_provider_ocm.Sdk.{success}
use terraform_provider_ocm.Handler.{send}
use terraform_provider_ocm.Samples.Framework.{framework, framework-IsStandard}
use terraform_provider_ocm.Prelude.{negsuc}
use terraform_provider_ocm.RosaCluster.Destroy.{
  timeout_in_minutes, to_int64, DestroyState, not_found, poll_failed, delete_cluster, poll, sleep,
  Api, gone_after, timeout_of, is_waiting_disabled, after_polls,
  wait_till_cluster_is_not_found_with_timeout, time_sleep, or_again,
  retry_cluster_not_found_with_timeout, await_removal, do_delete, delete,
}
use terraform_provider_ocm.RosaCluster.Destroy.Laws.{
  AllTimed, polls, slept, GivesUp, destroy-IsBounded, destroy-removes_iff, timeout, asked,
}
use terraform_provider_ocm.Client.Paging.Laws.{page_of}
use terraform_provider_ocm.OcmCluster.{hcp}
use terraform_provider_ocm.RosaCluster.Versions.{
  Version, Env, filter_of, join, search_params, get_and_validate_version_in_channel_group,
}
use terraform_provider_ocm.RosaCluster.Versions.Laws.{
  Among, IsWanted, raw_ids, Serves, validated_version_iff,
}
use terraform_provider_ocm.RosaCluster.Properties.{
  PropertiesState, extracted_defaults, has_value_at, has_defaults, should_patch_properties,
  patch_properties,
}
use terraform_provider_ocm.RosaCluster.Properties.Maps.{Distinct}
use terraform_provider_ocm.RosaCluster.Properties.Laws.{
  default_at, should_patch_properties-not_iff, sent_at, patch_properties-sends,
}

-- The first poll fails, and the second finds the cluster gone.
abbrev api : Api
api = record {
  on_delete = λ h id. success tt;
  on_poll = λ h id t. if nat_eq (length h) 1 then poll_failed else not_found;
}

abbrev state : DestroyState
state = record {
  id = known "c1";
  disable_waiting_in_destroy = null;
  destroy_timeout = known (pos 0);
}

-- The timeout of zero is replaced, with a warning.
deletes : delete api state [] ≡ (
  record {
    diagnostics = warning "Can't poll cluster state with a non-positive timeout" "" ∷ [];
    state = removed;
  },
  poll "c1" (pos 3600000000000)
      ∷ sleep 1
      ∷ poll "c1" (pos 3600000000000)
      ∷ delete_cluster "c1"
      ∷ [],
)
unfolding delete do_delete send await_removal after_polls timeout_of is_waiting_disabled or_again
    time_sleep retry_cluster_not_found_with_timeout wait_till_cluster_is_not_found_with_timeout
    gone_after timeout_in_minutes to_int64
deletes = refl

-- One minute more than fits into a duration wraps around to a timeout below zero.
wraps : timeout_in_minutes (pos 153722868) ≡ negsuc 9223371993709551615
unfolding timeout_in_minutes to_int64
wraps = refl

wraps_back : timeout_in_minutes (negsuc 1) ≡ negsuc 119999999999
unfolding timeout_in_minutes to_int64
wraps_back = refl

destroy-IsBounded_example :
    AllTimed "c1" (delete api state []).1
    × (polls (delete api state []).1 ≤ 0 + 3)
    × (slept (delete api state []).1 ≤ 0 + 3)
destroy-IsBounded_example = destroy-IsBounded api state [] refl tt

destroy-removes_iff_example : ((delete api state []).0.state ≡ removed) ↔ (
    (api.on_delete [] "c1" ≡ success tt)
    × ((is_waiting_disabled state ≡ true)
        ⊎ (¬ GivesUp api "c1" (timeout api state) (asked api state []))))
destroy-removes_iff_example = destroy-removes_iff api state []

abbrev ocm : Dict String
ocm = ("rosa_tf_version", "1.7.0") ∷ ("rosa_tf_commit", "abc") ∷ []

abbrev properties : Dict String
properties = ("team", "a") ∷ ("rosa_creator_arn", "arn:x") ∷ []

abbrev patched : PropertiesState
patched = record {
  properties = known (map known_entry properties);
  ocm_properties = known (map known_entry (("rosa_tf_version", "1.6.0") ∷ []));
}

abbrev planned : PropertiesState
planned = record { properties = known (map known_entry properties); ocm_properties = null }

ocm_differ : Distinct ocm
unfolding lookup
ocm_differ = (refl, (refl, tt))

should_patch_properties-not_iff_example : (should_patch_properties ocm patched planned ≡ false) ↔ (
    (map_eq (map_elements patched.properties) (map_elements planned.properties) ≡ true)
    × ((k : String) → lookup k ocm ≡ default_at patched k))
unfolding lookup
should_patch_properties-not_iff_example =
    should_patch_properties-not_iff ocm patched planned ocm_differ (refl, tt)

needs_patch : should_patch_properties ocm patched planned ≡ true
unfolding should_patch_properties should_patch_map map_eq extracted_defaults contains_key lookup
    has_defaults has_value_at
needs_patch = refl

patch_properties-sends_example :
    (sent : Dict String) × ((patch_properties ocm framework patched planned).1 ≡ some sent)
    × ((k : String) → lookup k sent ≡ sent_at ocm properties k)
patch_properties-sends_example =
    patch_properties-sends ocm framework patched planned properties ocm_differ framework-IsStandard
      refl needs_patch

abbrev listed_versions : List Version
listed_versions = record { raw_id = "4.15.0" } ∷ record { raw_id = "4.14.0" } ∷ []

-- One page, which comes sorted.
abbrev versions_env : Env
versions_env = record {
  on_list_versions = λ h filter page. some (page_of listed_versions (page - 1));
  sort_versions = λ vs. vs;
}

serves : Serves versions_env hcp "stable" listed_versions
serves h k =
    let same : k + 1 - 1 ≡ k = omega arith in ap (λ j. some (page_of listed_versions j)) same

filters :
    filter_of hcp "stable"
    ≡ "enabled = 'true' AND rosa_enabled = 'true' AND channel_group = 'stable' AND hosted_control_plane_enabled = 'true'"
unfolding filter_of join search_params
filters = refl

validated_version_iff_example :
    ((get_and_validate_version_in_channel_group versions_env 1 hcp "stable" "" []).0 ≡ ok "4.15.0")
    ↔ (Among "4.15.0" (raw_ids listed_versions) × IsWanted "" (raw_ids listed_versions) "4.15.0")
validated_version_iff_example =
    validated_version_iff versions_env hcp "stable" listed_versions "" "4.15.0" 1 [] serves
      (λ version. ((λ a. a), (λ a. a))) (omega arith)
