-- ===== src/HcpMachinePool/Populate.antt =====
-- populateState of provider/machinepool/hcp/machine_pool_resource.go: from the API's object to the
-- Terraform state, field by field in the source's order.
pub mod Tags
pub mod Laws
use terraform_provider_ocm.Prelude.{
  String, Bool, true, false, not, ◌&&◌, ◌||◌, ◌==◌, Option, none, some, List, [], ◌∷◌, map,
  if◌then◌else◌, Result, ok, err, ◌>>=◌, ◌>>◌, ℤ, pos, Dict, trim_prefix,
}
use terraform_provider_ocm.Common.Attribute.{
  Value, null, known, is_null, is_unknown, has_value, value_string, TfList, TfMap,
}
use terraform_provider_ocm.Common.Framework.{
  Framework, ConversionError, optional_map, convert_string_map_to_map_type, string_array_to_list,
}
use terraform_provider_ocm.Sdk.{Cluster}
use terraform_provider_ocm.MachinePool.State.{Taint}
use terraform_provider_ocm.MachinePool.Populate.{
  or_return, set_or_keep, taints_state, is_empty_dict, cluster_tags_of, erase_foreign,
}
use terraform_provider_ocm.Upgrade.Versions.{version_prefix}
use terraform_provider_ocm.HcpMachinePool.State.{
  AutoScaling, AwsNodePool, NodePoolStatus, HcpMachinePoolState, new_auto_scaling,
  new_aws_node_pool, flatten_node_pool_status, NodePoolAutoscaling, AwsPool, PoolVersion, NodePool,
}

-- `ec2.HttpTokensStateOptional`
abbrev pub http_tokens_optional : String
http_tokens_optional = "optional"

-- The object of the state, or a new one.
abbrev pub or_new {ℓ} : {A : Type ℓ} → A → Option A → A
or_new new none = new
or_new new (some old) = old

-- A value that was not set reads as the zero value.
abbrev pub or_zero : Option String → String
or_zero none = ""
or_zero (some s) = s

-- An empty setting stands for the optional one.
unfoldable pub populate_http_tokens : Option String → Value String → Value String
populate_http_tokens none old = old
populate_http_tokens (some setting) old =
    if setting == "" then known http_tokens_optional else known setting

unfoldable pub populate_root_volume : Option (Option ℤ) → Value ℤ
populate_root_volume (some (some size)) = known size
populate_root_volume (some none) = null
populate_root_volume none = null

unfoldable pub populate_autoscaling : Option NodePoolAutoscaling → AutoScaling → AutoScaling
unfolding set_or_keep
populate_autoscaling none old = record {
  enabled = known false;
  min_replicas = null;
  max_replicas = null;
}
populate_autoscaling (some range) old = record {
  enabled = known true;
  min_replicas = set_or_keep range.min_replica old.min_replicas;
  max_replicas = set_or_keep range.max_replica old.max_replicas;
}

-- Without a status in the object, an unknown one becomes null.
unfoldable pub populate_status : Option NodePoolStatus → Value NodePoolStatus → Value NodePoolStatus
unfolding flatten_node_pool_status
populate_status (some status) old = flatten_node_pool_status status.current_replicas status.message
populate_status none old = if is_unknown old then null else old

-- The first of the kubelet configs, of which a pool has one at most.
unfoldable pub populate_kubelet_configs : Option (List String) → Value String → Value String
populate_kubelet_configs (some (config ∷ configs)) old = known config
populate_kubelet_configs (some []) old = if not (value_string old == "") then null else old
populate_kubelet_configs none old = if not (value_string old == "") then null else old

unfoldable pub populate_version : Option PoolVersion → Value String → Value String
unfolding trim_prefix
populate_version none old = old
populate_version (some version) old = elim version.id [
  | none ↦ null
  | some id ↦ known (trim_prefix id version_prefix)
]

-- `object.AutoRepair()`
unfoldable pub is_repaired : Option Bool → Bool
is_repaired none = false
is_repaired (some setting) = setting

module _ (fw : Framework) where
  unfoldable pub filter_cluster_tags_not_present_in_np_input :
      TfMap → Cluster → Dict String → Result ConversionError (Dict String)
  unfolding optional_map is_empty_dict cluster_tags_of erase_foreign
  filter_cluster_tags_not_present_in_np_input np_tags cluster aws_tags =
      if is_empty_dict aws_tags || is_empty_dict (cluster_tags_of cluster) then ok aws_tags else do
        own ← optional_map fw np_tags
        ok (erase_foreign own (cluster_tags_of cluster) aws_tags)

  -- Tags that are filtered down to nothing leave the state's.
  unfoldable pub tags_or_keep : TfMap → Dict String → Result ConversionError TfMap
  unfolding or_return convert_string_map_to_map_type
  tags_or_keep old [] = ok old
  tags_or_keep old (e ∷ m) = or_return (convert_string_map_to_map_type fw (e ∷ m))

  unfoldable pub populate_tags :
      Option (Dict String) → Cluster → TfMap → Result ConversionError TfMap
  unfolding filter_cluster_tags_not_present_in_np_input tags_or_keep
  populate_tags none cluster old = ok (if is_unknown old || is_null old then null else old)
  populate_tags (some aws_tags) cluster old = do
    let kept = if is_unknown old || is_null old then null else old
    filtered ← filter_cluster_tags_not_present_in_np_input kept cluster aws_tags
    tags_or_keep kept filtered

  unfoldable pub populate_security_groups : Option (List String) → Result ConversionError TfList
  unfolding or_return string_array_to_list
  populate_security_groups none = ok null
  populate_security_groups (some groups) = or_return (string_array_to_list fw groups)

  unfoldable pub populate_aws_pool :
      AwsPool → Cluster → AwsNodePool → Result ConversionError AwsNodePool
  unfolding set_or_keep populate_tags populate_security_groups populate_http_tokens
      populate_root_volume
  populate_aws_pool aws cluster old = do
    tags ← populate_tags aws.tags cluster old.tags
    groups ← populate_security_groups aws.additional_security_group_ids
    ok (record {
      instance_type = set_or_keep aws.instance_type old.instance_type;
      instance_profile = set_or_keep aws.instance_profile old.instance_profile;
      tags = tags;
      additional_security_group_ids = groups;
      ec2_metadata_http_tokens =
          populate_http_tokens aws.ec2_metadata_http_tokens old.ec2_metadata_http_tokens;
      disk_size = populate_root_volume aws.root_volume;
    })

  unfoldable pub populate_aws :
      Option AwsPool → Cluster → Option AwsNodePool → Result ConversionError (Option AwsNodePool)
  unfolding populate_aws_pool
  populate_aws none cluster old = ok old
  populate_aws (some aws) cluster old = do
    pool ← populate_aws_pool aws cluster (or_new new_aws_node_pool old)
    ok (some pool)

  -- The error of this conversion is dropped.
  unfoldable pub populate_labels : Option (Dict String) → TfMap
  unfolding convert_string_map_to_map_type
  populate_labels none = null
  populate_labels (some []) = null
  populate_labels (some (e ∷ m)) = (convert_string_map_to_map_type fw (e ∷ m)).0

  -- No configs in the object leave those of the state, if they have a value.
  unfoldable pub populate_tuning_configs :
      Option (List String) → TfList → Result ConversionError TfList
  unfolding or_return string_array_to_list
  populate_tuning_configs none old = ok (if has_value old then old else null)
  populate_tuning_configs (some []) old = ok (if has_value old then old else null)
  populate_tuning_configs (some (c ∷ cs)) old = or_return (string_array_to_list fw (c ∷ cs))

  unfoldable pub populate_state :
      NodePool → HcpMachinePoolState → Cluster → Result ConversionError HcpMachinePoolState
  unfolding populate_aws populate_autoscaling set_or_keep taints_state populate_labels
      populate_status populate_tuning_configs populate_kubelet_configs populate_version is_repaired
  populate_state object state cluster = do
    aws ← populate_aws object.aws_node_pool cluster state.aws_node_pool
    tuning_configs ← populate_tuning_configs object.tuning_configs state.tuning_configs
    ok (record state {
      id = known object.id;
      name = known object.id;
      aws_node_pool = aws;
      auto_scaling =
          some
            (populate_autoscaling object.autoscaling (or_new new_auto_scaling state.auto_scaling));
      replicas = set_or_keep object.replicas state.replicas;
      taints = taints_state object.taints;
      labels = populate_labels object.labels;
      subnet_id = known (or_zero object.subnet);
      availability_zone = known (or_zero object.availability_zone);
      node_pool_status = populate_status object.status state.node_pool_status;
      tuning_configs = tuning_configs;
      kubelet_configs = populate_kubelet_configs object.kubelet_configs state.kubelet_configs;
      current_version = populate_version object.version state.current_version;
      auto_repair = known (is_repaired object.auto_repair);
    })
