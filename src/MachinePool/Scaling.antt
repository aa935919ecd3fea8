-- ===== src/MachinePool/Scaling.antt =====
-- setSpotInstances, getAutoscaling and shouldPatchTaints of
-- provider/machinepool/classic/machine_pool_resource.go.
pub mod Laws
use terraform_provider_ocm.Prelude.{
  String, Bool, true, false, not, ◌&&◌, ◌||◌, ◌==◌, Option, none, some, List, [], ◌∷◌, map,
  if◌then◌else◌, Result, ok, err, ◌>>=◌, ◌>>◌, fail_if, ℤ, nat_eq, length, list_eq, ◌≡◌, arith,
}
use terraform_provider_ocm.Common.Attribute.{
  Value, known, has_value, value_or, value_string, value_int64, value_bool, value_eq,
}
use terraform_provider_ocm.MachinePool.State.{
  Float64, Taints, MachinePoolState, Taint, Autoscaling, AwsMachinePool, MachinePool,
  new_aws_machine_pool,
}

-- A maximal price without spot instances.
pub data SpotError : Type 0 where
  price_without_spot : SpotError

-- No builder (`nil`) where spot instances are not asked for.
unfoldable pub set_spot_instances : MachinePoolState → Result SpotError (Option AwsMachinePool)
set_spot_instances state =
    let use_spot_instances =
      has_value state.use_spot_instances && value_bool state.use_spot_instances in
    let is_spot_max_price_set = has_value state.max_spot_price in
    if is_spot_max_price_set && not use_spot_instances
    then err price_without_spot
    else if use_spot_instances
    then ok (
        some (record new_aws_machine_pool {
          spot_market_options =
              some (if is_spot_max_price_set then some (value_or 0 state.max_spot_price) else none);
        }))
    else ok none

-- The message of `getAutoscaling`.
pub data ScalingError : Type 0 where
  no_max_replicas no_min_replicas replicas_range_without_autoscaling : ScalingError

-- `autoscaling.Empty()` of the client library is the parameter.
module _ (is_empty : Autoscaling → Bool) where
  unfoldable pub get_autoscaling :
      MachinePoolState → MachinePool → Result ScalingError (Bool × MachinePool)
  get_autoscaling state builder =
      if has_value state.autoscaling_enabled && value_bool state.autoscaling_enabled
      then (if not (has_value state.max_replicas)
          then err no_max_replicas
          else if not (has_value state.min_replicas)
          then err no_min_replicas
          else let autoscaling : Autoscaling = record {
            min_replicas = some (value_int64 state.min_replicas);
            max_replicas = some (value_int64 state.max_replicas);
          } in
            ok (
              true,
              if is_empty autoscaling
                  then builder
                  else record builder { autoscaling = some autoscaling },
            ))
      else if has_value state.max_replicas || has_value state.min_replicas
      then err replicas_range_without_autoscaling
      else ok (false, builder)

taint_eq : Taints → Taints → Bool
taint_eq a b =
    value_eq ◌==◌ a.key b.key
    && value_eq ◌==◌ a.value b.value
    && value_eq ◌==◌ a.schedule_type b.schedule_type

-- The lengths are compared before the loop, so one list is no prefix of the other.
some_taint_differs : List Taints → List Taints → Bool
unfolding taint_eq
some_taint_differs [] bs = false
some_taint_differs (a ∷ as_rest) [] = false
some_taint_differs (a ∷ as_rest) (b ∷ bs) = not (taint_eq a b) || some_taint_differs as_rest bs

unfoldable pub should_patch_taints : Option (List Taints) → Option (List Taints) → Bool
unfolding some_taint_differs
should_patch_taints none none = false
should_patch_taints none (some bs) = true
should_patch_taints (some xs) none = true
should_patch_taints (some xs) (some bs) =
    if not (nat_eq (length xs) (length bs)) then true else some_taint_differs xs bs

-- The loop over the plan's taints that Create and Update share.
unfoldable pub taint_builders : List Taints → List Taint
taint_builders = map (λ t. record {
  key = value_string t.key;
  value = value_string t.value;
  effect = value_string t.schedule_type;
})
