-- ===== src/HcpMachinePool/State.antt =====
-- provider/machinepool/hcp/machine_pool_state.go with aws_node_pool.go, autoscaling.go and
-- node_pool_status.go, and the node pool of the OCM API as machine_pool_resource.go builds and reads
-- it.
use terraform_provider_ocm.Prelude.{
  String, Bool, ◌&&◌, ◌==◌, Option, none, List, ℤ, pos, int_eq, if◌then◌else◌, Dict,
}
use terraform_provider_ocm.Common.Attribute.{Value, null, known, TfList, TfMap}
use terraform_provider_ocm.MachinePool.State.{Taints, Taint}

pub record AutoScaling : Type 0 where
  pub enabled : Value Bool
  pub min_replicas : Value ℤ
  pub max_replicas : Value ℤ

pub record AwsNodePool : Type 0 where
  pub instance_type : Value String
  pub instance_profile : Value String
  pub tags : TfMap
  pub additional_security_group_ids : TfList
  pub ec2_metadata_http_tokens : Value String
  pub disk_size : Value ℤ

pub record NodePoolStatus : Type 0 where
  pub current_replicas : ℤ
  pub message : String

pub record HcpMachinePoolState : Type 0 where
  pub id : Value String
  pub name : Value String
  pub cluster : Value String
  pub replicas : Value ℤ
  pub auto_scaling : Option AutoScaling  -- `nil` is `none`
  pub taints : Option (List Taints)
  pub labels : TfMap
  pub availability_zone : Value String
  pub subnet_id : Value String
  pub version : Value String
  pub current_version : Value String
  pub upgrade_acks_for : Value String
  pub node_pool_status : Value NodePoolStatus
  pub aws_node_pool : Option AwsNodePool
  pub tuning_configs : TfList
  pub kubelet_configs : Value String
  pub auto_repair : Value Bool
  pub ignore_deletion_error : Value Bool

-- `new(AutoScaling)` and `new(AWSNodePool)`: the zero value of an attribute is null.
abbrev pub new_auto_scaling : AutoScaling
new_auto_scaling = record { enabled = null; min_replicas = null; max_replicas = null }

abbrev pub new_aws_node_pool : AwsNodePool
new_aws_node_pool = record {
  instance_type = null;
  instance_profile = null;
  tags = null;
  additional_security_group_ids = null;
  ec2_metadata_http_tokens = null;
  disk_size = null;
}

-- A status of no replicas and no message is null.
unfoldable pub flatten_node_pool_status : ℤ → String → Value NodePoolStatus
flatten_node_pool_status current_replicas message =
    if int_eq current_replicas (pos 0) && message == ""
    then null
    else known (record { current_replicas = current_replicas; message = message })

-- The API's objects, each field `none` where it was not set. A builder is the object so far.
pub record NodePoolAutoscaling : Type 0 where
  pub min_replica : Option ℤ
  pub max_replica : Option ℤ

pub record AwsPool : Type 0 where
  pub instance_type : Option String
  pub instance_profile : Option String
  pub tags : Option (Dict String)
  pub additional_security_group_ids : Option (List String)
  pub ec2_metadata_http_tokens : Option String
  pub root_volume : Option (Option ℤ)  -- the volume, and the size in it

pub record PoolVersion : Type 0 where
  pub id : Option String
  pub channel_group : Option String

pub record NodePool : Type 0 where
  pub id : String
  pub aws_node_pool : Option AwsPool
  pub subnet : Option String
  pub availability_zone : Option String
  pub autoscaling : Option NodePoolAutoscaling
  pub replicas : Option ℤ
  pub taints : Option (List Taint)
  pub labels : Option (Dict String)
  pub tuning_configs : Option (List String)
  pub kubelet_configs : Option (List String)
  pub auto_repair : Option Bool
  pub version : Option PoolVersion
  pub status : Option NodePoolStatus

-- `cmv1.NewAWSNodePool()`
abbrev pub new_aws_pool : AwsPool
new_aws_pool = record {
  instance_type = none;
  instance_profile = none;
  tags = none;
  additional_security_group_ids = none;
  ec2_metadata_http_tokens = none;
  root_volume = none;
}

-- `cmv1.NewNodePool().ID(id)`
abbrev pub new_node_pool : String → NodePool
new_node_pool id = record {
  id = id;
  aws_node_pool = none;
  subnet = none;
  availability_zone = none;
  autoscaling = none;
  replicas = none;
  taints = none;
  labels = none;
  tuning_configs = none;
  kubelet_configs = none;
  auto_repair = none;
  version = none;
  status = none;
}
