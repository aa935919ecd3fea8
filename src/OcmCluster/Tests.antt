-- ===== src/OcmCluster/Tests.antt =====
-- New clusters, and the theorems at them.
use terraform_provider_ocm.Prelude.{
  ◌≡◌, ◌↔◌, refl, Bool, true, false, not, ◌||◌, none, some, [], ◌∷◌, err, OnOk, pos, is_some, leb_ℤ,
  inl, inr, arith, codes,
}
use terraform_provider_ocm.MachinePool.State.{Autoscaling}
use terraform_provider_ocm.MachinePool.Scaling.Laws.{SeesFields}
use terraform_provider_ocm.OcmCluster.{
  classic, ClusterNodes, Sts, AwsBuilder, ClusterBuilder, Validations, replicas_with_autoscaling,
}
use terraform_provider_ocm.OcmCluster.Arn.{matches_private_hosted_zone_role_arn}
use terraform_provider_ocm.OcmCluster.Arn.Laws.{IsRole, matches_private_hosted_zone_role_arn_iff}
use terraform_provider_ocm.OcmCluster.Nodes.{
  NodesInput, create_nodes, check_disk, check_zones, scale_nodes,
}
use terraform_provider_ocm.OcmCluster.Nodes.Laws.{SeesNodes, IsCreated, create_nodes-IsCreated}
use terraform_provider_ocm.OcmCluster.Aws.{AwsInput, create_aws_builder}
use terraform_provider_ocm.OcmCluster.Aws.Laws.{IsSound, create_aws_builder-IsSound}

abbrev is_empty_range : Autoscaling → Bool
is_empty_range a = not (is_some a.min_replicas || is_some a.max_replicas)

abbrev is_empty_nodes : ClusterNodes → Bool
is_empty_nodes nodes = not (is_some nodes.compute || is_some nodes.autoscale_compute)

abbrev validations : Validations
validations = record {
  node_pool_disk_ok = λ size. true;
  machine_pool_disk_ok = λ version size. leb_ℤ (pos 128) size;
  availability_zones_count_ok = λ multi_az count. true;
  min_replicas_ok = λ lo multi_az hosted subnets. leb_ℤ (pos 2) lo;
  max_replicas_ok = λ lo hi multi_az hosted subnets. leb_ℤ lo hi;
  kms_key_arn_ok = λ arn. true;
  is_empty_autoscaling = is_empty_range;
  is_empty_nodes = is_empty_nodes;
}

range_is_seen : SeesFields is_empty_range
range_is_seen a n e = rw e (ground arith)

nodes_are_seen : SeesNodes is_empty_nodes
nodes_are_seen nodes (inl (n, e)) = rw e (ground arith)
nodes_are_seen nodes (inr (a, e)) = rw e (ground arith)

abbrev nodes_input : NodesInput
nodes_input = record {
  auto_scaling_enabled = true;
  replicas = none;
  min_replicas = some (pos 3);
  max_replicas = some (pos 6);
  compute_machine_type = some "m5.xlarge";
  labels = none;
  availability_zones = some ("us-east-1a" ∷ []);
  multi_az = false;
  worker_disk_size = some (pos 300);
  version = some "4.14.0";
}

abbrev new_cluster : ClusterBuilder
new_cluster = record { nodes = none; aws = none; api = none }

abbrev sts : Sts
sts = record {
  role_arn = "arn:aws:iam::123456789012:role/installer";
  support_role_arn = "arn:aws:iam::123456789012:role/support";
  master_role_arn = none;
  worker_role_arn = "arn:aws:iam::123456789012:role/worker";
  operator_role_prefix = "demo";
  oidc_config_id = none;
}

abbrev aws_input : AwsInput
aws_input = record {
  tags = none;
  ec2_metadata_http_tokens = none;
  root_volume_kms_key_arn = none;
  etcd_kms_key_arn = none;
  is_private_link = true;
  account_id = some "123456789012";
  billing_account_id = none;
  sts = some sts;
  subnet_ids = some ("s1" ∷ []);
  private_hosted_zone_id = some "Z1";
  private_hosted_zone_role_arn = some "arn:aws:iam::123456789012:role/shared";
  hcp_internal_communication_private_hosted_zone_id = none;
  vpce_role_arn = none;
  additional_compute_security_group_ids = none;
  additional_infra_security_group_ids = none;
  additional_control_plane_security_group_ids = none;
  additional_allowed_principals = none;
}

matches_a_role : matches_private_hosted_zone_role_arn "arn:aws:iam::123456789012:role/shared" ≡ true
unfolding matches_private_hosted_zone_role_arn
matches_a_role = refl

needs_a_name : matches_private_hosted_zone_role_arn "arn:aws:iam::123456789012:role/" ≡ false
unfolding matches_private_hosted_zone_role_arn
needs_a_name = refl

refuses_both :
    create_nodes validations classic (record nodes_input { replicas = some (pos 3) }) new_cluster
    ≡ err replicas_with_autoscaling
unfolding create_nodes check_disk check_zones scale_nodes
refuses_both = refl

create_nodes-IsCreated_example :
    OnOk
      (λ b.
        (nodes : ClusterNodes) × (b ≡ record new_cluster { nodes = some nodes })
        × IsCreated validations classic nodes_input nodes)
      (create_nodes validations classic nodes_input new_cluster)
create_nodes-IsCreated_example =
    create_nodes-IsCreated validations classic nodes_input range_is_seen nodes_are_seen new_cluster

create_aws_builder-IsSound_example :
    OnOk
      (λ b.
        (aws : AwsBuilder) × (b ≡ record new_cluster { aws = some aws })
        × IsSound validations classic aws_input aws)
      (create_aws_builder validations classic aws_input new_cluster)
create_aws_builder-IsSound_example =
    create_aws_builder-IsSound validations classic aws_input new_cluster

matches_private_hosted_zone_role_arn_iff_example :
    (matches_private_hosted_zone_role_arn "arn:aws:iam::123456789012:role/shared" ≡ true)
    ↔ IsRole
        (codes "arn:aws:iam::")
        12
        (codes ":role")
        (codes "arn:aws:iam::123456789012:role/shared")
matches_private_hosted_zone_role_arn_iff_example =
    matches_private_hosted_zone_role_arn_iff "arn:aws:iam::123456789012:role/shared"
