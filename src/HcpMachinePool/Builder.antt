-- ===== src/HcpMachinePool/Builder.antt =====
-- The names and the builder of Create of provider/machinepool/hcp/machine_pool_resource.go.
pub mod Laws
use terraform_provider_ocm.Prelude.{
  ℕ, String, Bool, true, false, not, ◌&&◌, ◌||◌, Option, none, some, List, [], ◌∷◌, ◌++◌, map,
  if◌then◌else◌, Result, ok, err, ◌>>=◌, ◌>>◌, ℤ, nat_eq, leb, all, codes, Dict,
}
use terraform_provider_ocm.Common.Attribute.{
  Value, null, known, has_value, value_string, optional_int64, map_elements,
  is_string_attribute_unknown_or_empty, bool_with_true_default,
}
use terraform_provider_ocm.Common.Framework.{ConversionError, optional_map, string_list_to_array}
use terraform_provider_ocm.Common.Response.{Diagnostic, error, Response, save, saved}
use terraform_provider_ocm.Sdk.{Cluster}
use terraform_provider_ocm.Handler.{ok_or_fail}
use terraform_provider_ocm.MachinePool.State.{Taints, Taint}
use terraform_provider_ocm.MachinePool.Scaling.{taint_builders}
use terraform_provider_ocm.MachinePool.Update.{label}
use terraform_provider_ocm.MachinePool.Builder.{matches_name}
use terraform_provider_ocm.HcpMachinePool.State.{
  AutoScaling, AwsNodePool, HcpMachinePoolState, AwsPool, new_aws_pool, NodePool, new_node_pool,
}
use terraform_provider_ocm.HcpMachinePool.Scaling.{get_autoscaling, set_replicas}
use terraform_provider_ocm.HcpMachinePool.Populate.{http_tokens_optional, populate_state}
use terraform_provider_ocm.HcpMachinePool.Update.{
  adjust_initial_state_to_plan, with_tuning_configs, do_update,
}
use terraform_provider_ocm.HcpMachinePool.Server.{add_pool, History, Env, nil_pointer_error}

-- `^workers?(-[0-9]+)?$` over code points, after `worker`.
abbrev is_digit : ℕ → Bool
is_digit rune = leb b'0' rune && leb rune b'9'

unfoldable pub is_numbered : List ℕ → Bool
is_numbered [] = true
is_numbered (rune ∷ []) = false
is_numbered (rune ∷ digit ∷ digits) = nat_eq rune b'-' && all is_digit (digit ∷ digits)

-- What follows this prefix.
unfoldable pub after_runes : List ℕ → List ℕ → Option (List ℕ)
after_runes [] runes = some runes
after_runes (p ∷ prefix) [] = none
after_runes (p ∷ prefix) (rune ∷ runes) =
    let rest = after_runes prefix runes in if nat_eq p rune then rest else none

unfoldable pub after_worker : List ℕ → Bool
unfolding is_numbered
after_worker [] = true
after_worker (rune ∷ runes) = is_numbered (rune ∷ runes) || (nat_eq rune b's' && is_numbered runes)

-- `standardNodePoolRegex`
unfoldable pub is_standard_name : List ℕ → Bool
unfolding after_runes after_worker
is_standard_name name = elim (after_runes (codes "worker") name) [
  | none ↦ false
  | some rest ↦ after_worker rest
]

-- Unknown or empty tokens of the plan become the optional ones.
unfoldable pub default_http_tokens : AwsNodePool → AwsNodePool
default_http_tokens aws =
    if is_string_attribute_unknown_or_empty aws.ec2_metadata_http_tokens
    then record aws { ec2_metadata_http_tokens = known http_tokens_optional }
    else aws

-- The handler returns without a diagnostic where the tags cannot be converted.
unfoldable pub tags_or_return :
    Result ConversionError (Option (Dict String)) → Result (List Diagnostic) (Option (Dict String))
tags_or_return (ok tags) = ok tags
tags_or_return (err why) = err []

-- `if len(awsTags) > 0`
unfoldable pub tags_of_plan : Option (Dict String) → Option (Dict String)
tags_of_plan none = none
tags_of_plan (some []) = none
tags_of_plan (some (e ∷ m)) = some (e ∷ m)

unfoldable pub taints_of_plan : Option (List Taints) → Option (List Taint)
taints_of_plan none = none
taints_of_plan (some []) = none
taints_of_plan (some (t ∷ ts)) = some (taint_builders (t ∷ ts))

-- The parts of the builder that come after the scaling and cannot fail.
unfoldable pub set_plain : HcpMachinePoolState → NodePool → NodePool
unfolding taints_of_plan
set_plain plan builder = record builder {
  taints = taints_of_plan plan.taints;
  labels = if has_value plan.labels then some (map label (map_elements plan.labels)) else none;
  kubelet_configs =
      if is_string_attribute_unknown_or_empty plan.kubelet_configs
      then none
      else some (value_string plan.kubelet_configs ∷ []);
  auto_repair =
      if has_value plan.auto_repair then some (bool_with_true_default plan.auto_repair) else none;
}

unfoldable pub set_subnet : HcpMachinePoolState → NodePool → NodePool
set_subnet plan builder =
    if is_string_attribute_unknown_or_empty plan.subnet_id
    then builder
    else record builder { subnet = some (value_string plan.subnet_id) }

-- Both a range and a count: an error is added, and the handler goes on.
unfoldable pub both_given : Bool → Bool → List Diagnostic
both_given autoscaling replicas =
    if autoscaling && replicas
    then error "Cannot build machine pool" "replicas with autoscaling" ∷ []
    else []

abbrev Checked : Type 0 → Type 0
Checked A = Result (List Diagnostic) A

unfoldable pub check_when : Bool → String → Checked (Unit {0})
check_when true detail = err (error "Cannot build machine pool" detail ∷ [])
check_when false detail = ok tt

module _ {V : Type 0} (env : Env V) where
  open env use {framework, is_empty, disk_size_ok, create_version_id}

  unfoldable pub security_groups_of : AwsNodePool → Result (List Diagnostic) (Option (List String))
  security_groups_of aws =
      if has_value aws.additional_security_group_ids
      then ok_or_fail (string_list_to_array framework aws.additional_security_group_ids)
          "Cannot convert Additional Security Groups to slice" ""
      else ok none

  unfoldable pub root_volume_of : Option ℤ → Checked (Option (Option ℤ))
  root_volume_of none = ok none
  root_volume_of (some size) = do
    check_when (not (disk_size_ok size)) "disk size"
    ok (some (some size))

  -- The AWS part of the builder, for a plan with its tokens filled in.
  unfoldable pub build_aws : AwsNodePool → Checked AwsPool
  build_aws aws = do
    tags ← tags_or_return (optional_map framework aws.tags)
    groups ← security_groups_of aws
    volume ← root_volume_of (optional_int64 aws.disk_size)
    ok (record new_aws_pool {
      instance_type = some (value_string aws.instance_type);
      tags = tags_of_plan tags;
      additional_security_group_ids = groups;
      ec2_metadata_http_tokens = some (value_string aws.ec2_metadata_http_tokens);
      root_volume = volume;
    })

  -- The builder with its AWS part, and the plan with its tokens filled in.
  unfoldable pub start_builder :
      HcpMachinePoolState → Option AwsNodePool → Checked (NodePool × HcpMachinePoolState)
  start_builder plan none = ok (new_node_pool (value_string plan.name), plan)
  start_builder plan (some aws) = do
    built ← build_aws (default_http_tokens aws)
    ok (
      record (new_node_pool (value_string plan.name)) { aws_node_pool = some built },
      record plan { aws_node_pool = some (default_http_tokens aws) },
    )

  -- The scaled builder, with the diagnostics that do not end the handler.
  unfoldable pub scale :
      HcpMachinePoolState → NodePool → Option AutoScaling → Checked (List Diagnostic × NodePool)
  scale plan builder none = err nil_pointer_error
  scale plan builder (some scaling) = do
    scaled ←
        ok_or_fail (get_autoscaling is_empty scaling builder) "Cannot build machine pool"
          "autoscaling"
    check_when (not scaled.0 && not (has_value plan.replicas)) "replicas"
    ok (both_given scaled.0 (has_value plan.replicas), set_replicas plan scaled.1)

  unfoldable pub set_tuning_configs : HcpMachinePoolState → NodePool → Checked NodePool
  set_tuning_configs plan builder =
      if has_value plan.tuning_configs
      then (do
        configs ←
            ok_or_fail (string_list_to_array framework plan.tuning_configs)
              "Cannot build machine pool" "tuning configs"
        ok (with_tuning_configs configs builder))
      else ok builder

  unfoldable pub set_version : Cluster → HcpMachinePoolState → NodePool → NodePool
  set_version cluster plan builder =
      if has_value plan.version
      then record builder {
        version = some (record {
          id = some (create_version_id (value_string plan.version) cluster.channel_group);
          channel_group = some cluster.channel_group;
        });
      }
      else builder
