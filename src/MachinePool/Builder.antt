-- ===== src/MachinePool/Builder.antt =====
-- The checks and the builder of Create of provider/machinepool/classic/machine_pool_resource.go.
pub mod Laws
use terraform_provider_ocm.Prelude.{
  ℕ, String, Bool, true, false, not, ◌&&◌, ◌||◌, ◌==◌, Option, none, some, List, [], ◌∷◌, map,
  if◌then◌else◌, Result, ok, err, ℤ, nat_eq, leb, all, codes, Dict, ◌>>=◌, ◌>>◌, is_multiple,
  is_some,
}
use terraform_provider_ocm.Common.Attribute.{
  Value, null, known, has_value, value_string, value_int64, optional_int64, TfMap, TfList,
  map_elements,
}
use terraform_provider_ocm.Common.Framework.{Framework, optional_map, string_list_to_array}
use terraform_provider_ocm.Common.Response.{Diagnostic, error, Response, save, Saved, saved}
use terraform_provider_ocm.Sdk.{Cluster, Reply, success, failure}
use terraform_provider_ocm.MachinePool.State.{
  Taints, MachinePoolState, Taint, AwsMachinePool, MachinePool, new_machine_pool,
  new_aws_machine_pool,
}
use terraform_provider_ocm.MachinePool.Zones.{is_set, validate_az_config}
use terraform_provider_ocm.MachinePool.Scaling.{set_spot_instances, get_autoscaling, taint_builders}
use terraform_provider_ocm.MachinePool.Populate.{populate_state}
use terraform_provider_ocm.MachinePool.Read.{PoolRead, pool_not_found, pool_state, read_state}
use terraform_provider_ocm.MachinePool.Update.{
  adjust_initial_state_to_plan, do_update, label, not_exactly_one, set_replicas,
}
use terraform_provider_ocm.MachinePool.Server.{Env, ok_or_fail}

-- `^[a-z]([-a-z0-9]*[a-z0-9])?$` over code points.
unfoldable pub is_lower : ℕ → Bool
is_lower rune = leb b'a' rune && leb rune b'z'

unfoldable pub is_lower_or_digit : ℕ → Bool
unfolding is_lower
is_lower_or_digit c = is_lower c || (leb b'0' c && leb c b'9')

-- The optional group: nothing, or inner characters and a last one that is no dash.
unfoldable pub ends_well : List ℕ → Bool
unfolding is_lower_or_digit
ends_well [] = true
ends_well (c ∷ []) = is_lower_or_digit c
ends_well (c ∷ d ∷ cs) = (nat_eq c b'-' || is_lower_or_digit c) && ends_well (d ∷ cs)

unfoldable pub matches_name : List ℕ → Bool
unfolding is_lower ends_well
matches_name [] = false
matches_name (c ∷ cs) = is_lower c && ends_well cs

-- `defaultMachinePoolName`
abbrev pub default_machine_pool_name : String
default_machine_pool_name = "worker"

-- The builder's first part, after the disk size was checked.
unfoldable pub named_builder : MachinePoolState → MachinePool
named_builder plan = record (new_machine_pool (value_string plan.name)) {
  instance_type = some (value_string plan.machine_type);
  root_volume =
      if has_value plan.disk_size then some (some (some (value_int64 plan.disk_size))) else none;
}

unfoldable pub set_zones : MachinePoolState → MachinePool → MachinePool
set_zones plan builder = record builder {
  availability_zones =
      if is_set plan.availability_zone then value_string plan.availability_zone ∷ [] else [];
  subnets = if is_set plan.subnet_id then value_string plan.subnet_id ∷ [] else [];
}

-- `if awsMachinePoolBuilder == nil { .. = cmv1.NewAWSMachinePool() }`
unfoldable pub or_new : Option AwsMachinePool → AwsMachinePool
or_new none = new_aws_machine_pool
or_new (some aws) = aws

unfoldable pub set_taints_and_labels : MachinePoolState → MachinePool → MachinePool
unfolding taint_builders
set_taints_and_labels plan builder = record builder {
  taints = elim plan.taints [
    | none ↦ none
    | some ts ↦ elim ts [ [] ↦ none | t ∷ rest ↦ some (taint_builders (t ∷ rest)) ]
  ];
  labels = if has_value plan.labels then some (map label (map_elements plan.labels)) else none;
}

abbrev Checked : Type 0 → Type 0
Checked A = Result (List Diagnostic) A

unfoldable pub check_when : Bool → String → Checked (Unit {0})
check_when true detail = err (error "Cannot build machine pool" detail ∷ [])
check_when false detail = ok tt

module _ (env : Env) where
  open env use {framework, is_empty}

  -- A list or map of the plan that has a value goes to the AWS builder.
  unfoldable pub add_security_groups :
      MachinePoolState → Option AwsMachinePool → Checked (Option AwsMachinePool)
  add_security_groups plan aws =
      if has_value plan.additional_security_group_ids
      then (do
        ids ←
            ok_or_fail (string_list_to_array framework plan.additional_security_group_ids)
              "Cannot convert Additional Security Groups to slice" ""
        ok (some (record (or_new aws) { additional_security_group_ids = ids })))
      else ok aws

  unfoldable pub add_tags :
      MachinePoolState → Option AwsMachinePool → Checked (Option AwsMachinePool)
  add_tags plan aws =
      if has_value plan.aws_tags
      then (do
        tags ←
            ok_or_fail (optional_map framework plan.aws_tags)
              "Cannot convert AWS tags map object to string map" ""
        ok (some (record (or_new aws) { tags = tags })))
      else ok aws

  -- The scaling of the pool: exactly one of autoscaling and a count, which over several zones is
  -- a multiple of 3.
  unfoldable pub scale : Bool → MachinePoolState → MachinePool → Checked MachinePool
  scale is_multi_az_pool plan builder = do
    scaled ←
        ok_or_fail (get_autoscaling is_empty plan builder) "Cannot build machine pool" "autoscaling"
    check_when
        (has_value plan.replicas
          && is_multi_az_pool
          && not (is_multiple 3 (value_int64 plan.replicas)))
        "replicas must be a multiple of 3"
    check_when (not_exactly_one scaled.0 (has_value plan.replicas)) "replicas"
    ok (set_replicas plan scaled.1)

  -- From the plan to the builder, and the plan with its zones filled in.
  unfoldable pub build_pool : Cluster → MachinePoolState → Checked (MachinePool × MachinePoolState)
  build_pool cluster plan = do
    spot ← ok_or_fail (set_spot_instances plan) "Cannot build machine pool" "spot instances"
    zoned ← ok_or_fail (validate_az_config cluster plan) "Cannot build machine pool" "zones"
    groups ← add_security_groups zoned.1 spot
    aws ← add_tags zoned.1 groups
    scaled ←
        scale zoned.0 zoned.1 (record (set_zones zoned.1 (named_builder zoned.1)) { aws = aws })
    ok (set_taints_and_labels zoned.1 scaled, zoned.1)
