-- ===== src/MachinePool/Zones.antt =====
-- validateAZConfig of provider/machinepool/classic/machine_pool_resource.go.
pub mod Laws
use terraform_provider_ocm.Prelude.{
  String, Bool, true, false, not, ◌&&◌, ◌||◌, List, [], ◌∷◌, any, ◌==◌, if◌then◌else◌, Result, ok,
  err, ◌>>=◌, ◌>>◌, fail_if,
}
use terraform_provider_ocm.Common.Attribute.{
  Value, null, known, has_value, value_string, value_bool, is_string_attribute_unknown_or_empty,
}
use terraform_provider_ocm.Sdk.{Cluster}
use terraform_provider_ocm.MachinePool.State.{MachinePoolState}

-- The error texts.
pub data ZoneError : Type 0 where
  mutually_exclusive must_be_false only_multi_az_zone only_multi_az zone_not_in_cluster : ZoneError

-- `!IsStringAttributeUnknownOrEmpty(..)`
unfoldable pub is_set : Value String → Bool
unfolding is_string_attribute_unknown_or_empty
is_set v = not (is_string_attribute_unknown_or_empty v)

-- The branch for a cluster over several zones.
multi_az_setting : MachinePoolState → Result ZoneError MachinePoolState
multi_az_setting state =
    let az_or_subnet = is_set state.availability_zone || is_set state.subnet_id in
    if is_set state.availability_zone && is_set state.subnet_id
    then err mutually_exclusive
    else if has_value state.multi_availability_zone
    then (if az_or_subnet && value_bool state.multi_availability_zone
        then err must_be_false
        else ok state)
    else ok (record state { multi_availability_zone = known (not az_or_subnet) })

-- The branch for a cluster in one zone.
single_az_setting : MachinePoolState → Result ZoneError MachinePoolState
single_az_setting state =
    if is_set state.availability_zone
    then err only_multi_az_zone
    else if has_value state.multi_availability_zone && value_bool state.multi_availability_zone
    then err only_multi_az
    else ok (record state { multi_availability_zone = known false })

-- `clusterAZs[0]` where the zone is defaulted, and null where it is not.
default_zone : Bool → List String → Value String
default_zone may_default [] = null
default_zone may_default (az ∷ azs) = if may_default then known az else null

choose_zone : Cluster → MachinePoolState → Result ZoneError MachinePoolState
unfolding default_zone
choose_zone cluster state =
    let may_default =
      not (value_bool state.multi_availability_zone)
      && cluster.multi_az
      && not (is_set state.subnet_id) in
    if is_set state.availability_zone
    then (if any (λ az. az == value_string state.availability_zone) cluster.availability_zones
        then ok state
        else err zone_not_in_cluster)
    else ok
        (record state { availability_zone = default_zone may_default cluster.availability_zones })

-- Whether the pool is over several zones, and the state with its zone settings filled in.
unfoldable pub validate_az_config :
    Cluster → MachinePoolState → Result ZoneError (Bool × MachinePoolState)
unfolding is_set multi_az_setting single_az_setting choose_zone
validate_az_config cluster state = do
  set ← if cluster.multi_az then multi_az_setting state else single_az_setting state
  chosen ← choose_zone cluster set
  ok (value_bool chosen.multi_availability_zone, chosen)
