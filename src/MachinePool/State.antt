-- ===== src/MachinePool/State.antt =====
-- provider/machinepool/classic/machine_pool_state.go, and the machine pool of the OCM API as
-- machine_pool_resource.go builds and reads it.
use terraform_provider_ocm.Prelude.{
  ℕ, String, Bool, ◌&&◌, ◌||◌, Option, none, List, [], ◌^◌, nat_eq, ℤ, Dict,
}
use terraform_provider_ocm.Common.Attribute.{Value, TfList, TfMap}

-- A float64 by its IEEE 754 bits; the code only carries it along and compares it with 0.
abbrev pub Float64 : Type 0
Float64 = ℕ

abbrev pub is_zero_float : Float64 → Bool
is_zero_float bits = nat_eq bits 0 || nat_eq bits (2 ^ 63)

-- Equal bits, or both signs of 0.
abbrev pub float_eq : Float64 → Float64 → Bool
float_eq a b = nat_eq a b || is_zero_float a && is_zero_float b

-- `Taints` of the Terraform state.
pub record Taints : Type 0 where
  pub key : Value String
  pub value : Value String
  pub schedule_type : Value String

pub record MachinePoolState : Type 0 where
  pub cluster : Value String
  pub id : Value String
  pub machine_type : Value String
  pub name : Value String
  pub replicas : Value ℤ
  pub use_spot_instances : Value Bool
  pub max_spot_price : Value Float64
  pub autoscaling_enabled : Value Bool
  pub min_replicas : Value ℤ
  pub max_replicas : Value ℤ
  pub taints : Option (List Taints)  -- `nil` is `none`
  pub labels : TfMap
  pub multi_availability_zone : Value Bool
  pub availability_zone : Value String
  pub availability_zones : TfList
  pub subnet_id : Value String
  pub subnet_ids : TfList
  pub disk_size : Value ℤ
  pub additional_security_group_ids : TfList
  pub aws_tags : TfMap
  pub ignore_deletion_error : Value Bool

-- The API's objects, each field `none` where it was not set. A builder is the object so far.
pub record Taint : Type 0 where
  pub key : String
  pub value : String
  pub effect : String

pub record Autoscaling : Type 0 where
  pub min_replicas : Option ℤ
  pub max_replicas : Option ℤ

pub record AwsMachinePool : Type 0 where
  pub spot_market_options : Option (Option Float64)  -- the options, and the price in them
  pub additional_security_group_ids : Option (List String)
  pub tags : Option (Dict String)

pub record MachinePool : Type 0 where
  pub id : String
  pub instance_type : Option String
  pub root_volume : Option (Option (Option ℤ))  -- the volume, its AWS part, the size in it
  pub aws : Option AwsMachinePool
  pub availability_zones : List String
  pub subnets : List String
  pub autoscaling : Option Autoscaling
  pub replicas : Option ℤ
  pub taints : Option (List Taint)
  pub labels : Option (Dict String)

-- `cmv1.NewAWSMachinePool()`
abbrev pub new_aws_machine_pool : AwsMachinePool
new_aws_machine_pool = record {
  spot_market_options = none;
  additional_security_group_ids = none;
  tags = none;
}

-- `cmv1.NewMachinePool().ID(id)`
abbrev pub new_machine_pool : String → MachinePool
new_machine_pool id = record {
  id = id;
  instance_type = none;
  root_volume = none;
  aws = none;
  availability_zones = [];
  subnets = [];
  autoscaling = none;
  replicas = none;
  taints = none;
  labels = none;
}
