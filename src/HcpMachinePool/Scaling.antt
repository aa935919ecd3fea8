-- ===== src/HcpMachinePool/Scaling.antt =====
-- getAutoscaling of provider/machinepool/hcp/machine_pool_resource.go, and the replicas next to it.
pub mod Laws
use terraform_provider_ocm.Prelude.{
  Bool, true, false, not, ◌&&◌, ◌||◌, none, some, if◌then◌else◌, Result, ok, err,
}
use terraform_provider_ocm.Common.Attribute.{has_value, value_bool, value_int64}
use terraform_provider_ocm.MachinePool.Scaling.{
  ScalingError, no_max_replicas, no_min_replicas, replicas_range_without_autoscaling,
}
use terraform_provider_ocm.HcpMachinePool.State.{
  AutoScaling, HcpMachinePoolState, NodePoolAutoscaling, NodePool,
}

-- `autoscaling.Empty()` of the client library is the parameter.
module _ (is_empty : NodePoolAutoscaling → Bool) where
  unfoldable pub get_autoscaling : AutoScaling → NodePool → Result ScalingError (Bool × NodePool)
  get_autoscaling scaling builder =
      if has_value scaling.enabled && value_bool scaling.enabled
      then (if not (has_value scaling.max_replicas)
          then err no_max_replicas
          else if not (has_value scaling.min_replicas)
          then err no_min_replicas
          else let autoscaling : NodePoolAutoscaling = record {
            min_replica = some (value_int64 scaling.min_replicas);
            max_replica = some (value_int64 scaling.max_replicas);
          } in
            ok (
              true,
              if is_empty autoscaling
                  then builder
                  else record builder { autoscaling = some autoscaling },
            ))
      else if has_value scaling.max_replicas || has_value scaling.min_replicas
      then err replicas_range_without_autoscaling
      else ok (false, builder)

-- The replicas of a plan are set on the builder if they have a value.
abbrev pub set_replicas : HcpMachinePoolState → NodePool → NodePool
set_replicas plan builder =
    if has_value plan.replicas
    then record builder { replicas = some (value_int64 plan.replicas) }
    else builder
