-- ===== src/OcmCluster.antt =====
-- internal/ocm/resource/cluster.go: the cluster that the provider sends to the API, by its builder
-- so far, where `none` is a field that was not set.
pub mod Arn
pub mod Nodes
pub mod Aws
mod Tests
use terraform_provider_ocm.Prelude.{ℕ, String, Bool, Option, none, List, ℤ, Dict}
use terraform_provider_ocm.MachinePool.State.{Autoscaling}

pub data ClusterTopology : Type 0 where
  classic hcp : ClusterTopology

pub record ClusterNodes : Type 0 where
  pub compute_machine_type : Option String
  pub compute_root_volume : Option ℤ  -- the size of its AWS volume
  pub compute_labels : Option (Dict String)
  pub availability_zones : Option (List String)
  pub autoscale_compute : Option Autoscaling
  pub compute : Option ℤ

pub record Sts : Type 0 where
  pub role_arn : String
  pub support_role_arn : String
  pub master_role_arn : Option String
  pub worker_role_arn : String
  pub operator_role_prefix : String
  pub oidc_config_id : Option String

pub record AwsBuilder : Type 0 where
  pub tags : Option (Dict String)
  pub ec2_metadata_http_tokens : String
  pub kms_key_arn : Option String
  pub etcd_kms_key_arn : Option String
  pub billing_account_id : Option String
  pub account_id : Option String
  pub private_link : Bool
  pub subnet_ids : Option (List String)
  pub additional_compute_security_group_ids : Option (List String)
  pub additional_infra_security_group_ids : Option (List String)
  pub additional_control_plane_security_group_ids : Option (List String)
  pub sts : Option Sts
  pub private_hosted_zone_id : Option String
  pub private_hosted_zone_role_arn : Option String
  pub hcp_internal_communication_hosted_zone_id : Option String
  pub vpc_endpoint_role_arn : Option String
  pub additional_allowed_principals : Option (List String)

pub data Listening : Type 0 where
  internal external : Listening

pub record ClusterBuilder : Type 0 where
  pub nodes : Option ClusterNodes
  pub aws : Option AwsBuilder
  pub api : Option Listening

-- The validations of ocm-common, and `Empty` of the client's builders.
pub record Validations : Type 0 where
  pub node_pool_disk_ok : ℤ → Bool
  pub machine_pool_disk_ok : String → ℤ → Bool
  pub availability_zones_count_ok : Bool → ℕ → Bool  -- multi-AZ, count
  pub min_replicas_ok : ℤ → Bool → Bool → ℤ → Bool  -- minimum, multi-AZ, hosted, private subnets
  pub max_replicas_ok : ℤ → ℤ → Bool → Bool → ℤ → Bool  -- minimum, maximum, and the same
  pub kms_key_arn_ok : Option String → Bool
  pub is_empty_autoscaling : Autoscaling → Bool
  pub is_empty_nodes : ClusterNodes → Bool

pub data ClusterError : Type 0 where
  version_missing disk_size availability_zones_count : ClusterError
  replicas_with_autoscaling bounds_without_autoscaling min_replicas max_replicas : ClusterError
  subnets_missing etcd_on_classic private_link_without_subnets kms_key_arn : ClusterError
  shared_vpc_without_sts_and_subnets role_arn vpc_endpoint_role_arn private_link_on_public :
      ClusterError
