-- ===== src/OcmCluster/Aws.antt =====
-- CreateAWSBuilder, ProcessKMSKeyARN, ProcessEtcKMSKeyARN, SetAPIPrivacy and CreateSTS of
-- internal/ocm/resource/cluster.go.
pub mod Laws
use terraform_provider_ocm.Prelude.{
  ℕ, String, Bool, true, false, ◌&&◌, ◌||◌, not, Option, none, some, List, [], ◌∷◌, if◌then◌else◌,
  Result, ok, err, ◌>>=◌, ◌>>◌, fail_if, Dict, is_some,
}
use terraform_provider_ocm.OcmCluster.{
  ClusterTopology, classic, hcp, Sts, AwsBuilder, Listening, internal, external, ClusterBuilder,
  Validations, ClusterError, subnets_missing, etcd_on_classic, private_link_without_subnets,
  kms_key_arn, shared_vpc_without_sts_and_subnets, role_arn, vpc_endpoint_role_arn,
  private_link_on_public,
}
use terraform_provider_ocm.OcmCluster.Arn.{matches_private_hosted_zone_role_arn}
use terraform_provider_ocm.OcmCluster.Nodes.{is_classic}

-- What `CreateAWSBuilder` is called with.
pub record AwsInput : Type 0 where
  pub tags : Option (Dict String)
  pub ec2_metadata_http_tokens : Option String
  pub root_volume_kms_key_arn : Option String
  pub etcd_kms_key_arn : Option String
  pub is_private_link : Bool
  pub account_id : Option String
  pub billing_account_id : Option String
  pub sts : Option Sts
  pub subnet_ids : Option (List String)
  pub private_hosted_zone_id : Option String
  pub private_hosted_zone_role_arn : Option String
  pub hcp_internal_communication_private_hosted_zone_id : Option String
  pub vpce_role_arn : Option String
  pub additional_compute_security_group_ids : Option (List String)
  pub additional_infra_security_group_ids : Option (List String)
  pub additional_control_plane_security_group_ids : Option (List String)
  pub additional_allowed_principals : Option (List String)

-- `cmv1.Ec2MetadataHttpTokensOptional`
abbrev pub ec2_metadata_http_tokens_optional : String
ec2_metadata_http_tokens_optional = "optional"

-- The settings that are copied from the input.
unfoldable pub start_aws : AwsInput → AwsBuilder
start_aws input = record {
  tags = input.tags;
  ec2_metadata_http_tokens = elim (input.ec2_metadata_http_tokens) [
    | none ↦ ec2_metadata_http_tokens_optional
    | some tokens ↦ tokens
  ];
  kms_key_arn = none;
  etcd_kms_key_arn = none;
  billing_account_id = none;
  account_id = input.account_id;
  private_link = input.is_private_link;
  subnet_ids = input.subnet_ids;
  additional_compute_security_group_ids = input.additional_compute_security_group_ids;
  additional_infra_security_group_ids = input.additional_infra_security_group_ids;
  additional_control_plane_security_group_ids = input.additional_control_plane_security_group_ids;
  sts = input.sts;
  private_hosted_zone_id = none;
  private_hosted_zone_role_arn = none;
  hcp_internal_communication_hosted_zone_id = none;
  vpc_endpoint_role_arn = none;
  additional_allowed_principals = input.additional_allowed_principals;
}

-- The private hosted zone that a cluster with hosted control planes uses inside, which is set only
-- with both of its parts.
unfoldable pub set_internal_zone :
    ClusterTopology → Option String → Option String → AwsBuilder → Result ClusterError AwsBuilder
set_internal_zone hcp (some zone) (some arn) aws = do
  fail_if (not (matches_private_hosted_zone_role_arn arn)) vpc_endpoint_role_arn
  ok (record aws {
    hcp_internal_communication_hosted_zone_id = some zone;
    vpc_endpoint_role_arn = some arn;
  })
set_internal_zone hcp none vpce aws = ok aws
set_internal_zone hcp (some zone) none aws = ok aws
set_internal_zone classic _ vpce aws = ok aws

-- The private hosted zone of a shared VPC, which is set only with both of its parts.
unfoldable pub set_hosted_zone :
    ClusterTopology
    → AwsInput
    → Option String
    → Option String
    → AwsBuilder
    → Result ClusterError AwsBuilder
set_hosted_zone topology input (some zone) (some arn) aws = do
  fail_if (not (is_some input.subnet_ids) || not (is_some input.sts))
      shared_vpc_without_sts_and_subnets
  fail_if (not (matches_private_hosted_zone_role_arn arn)) role_arn
  set_internal_zone topology input.hcp_internal_communication_private_hosted_zone_id
      input.vpce_role_arn
      (record aws { private_hosted_zone_id = some zone; private_hosted_zone_role_arn = some arn })
set_hosted_zone topology input none arn aws = ok aws
set_hosted_zone topology input (some zone) none aws = ok aws

unfoldable pub set_api_privacy :
    Bool → Bool → Bool → ClusterBuilder → Result ClusterError ClusterBuilder
set_api_privacy is_private is_private_link is_sts builder = do
  fail_if (is_sts && not is_private && is_private_link) private_link_on_public
  ok (record builder { api = some (if is_private then internal else external) })

unfoldable pub create_sts : String → String → Option String → String → String → Option String → Sts
create_sts installer_role_arn support_role_arn master_role_arn worker_role_arn operator_role_prefix
      oidc_config_id =
    record {
      role_arn = installer_role_arn;
      support_role_arn = support_role_arn;
      master_role_arn = master_role_arn;
      worker_role_arn = worker_role_arn;
      operator_role_prefix = operator_role_prefix;
      oidc_config_id = oidc_config_id;
    }

unfoldable pub check_input : ClusterTopology → AwsInput → Result ClusterError (Unit {0})
check_input topology input = do
  fail_if (not (is_classic topology) && not (is_some input.subnet_ids)) subnets_missing
  fail_if (is_classic topology && is_some input.etcd_kms_key_arn) etcd_on_classic
  fail_if (input.is_private_link && not (is_some input.subnet_ids)) private_link_without_subnets

module _ (validations : Validations) where
  open validations use {kms_key_arn_ok}

  unfoldable pub process_kms_key_arn : Option String → AwsBuilder → Result ClusterError AwsBuilder
  process_kms_key_arn arn aws = do
    fail_if (not (kms_key_arn_ok arn)) kms_key_arn
    ok (record aws { kms_key_arn = arn })

  unfoldable pub process_etc_kms_key_arn :
      Option String → AwsBuilder → Result ClusterError AwsBuilder
  process_etc_kms_key_arn arn aws = do
    fail_if (not (kms_key_arn_ok arn)) kms_key_arn
    ok (record aws { etcd_kms_key_arn = arn })

  -- What only clusters with hosted control planes have.
  unfoldable pub set_hcp : ClusterTopology → AwsInput → AwsBuilder → Result ClusterError AwsBuilder
  set_hcp classic input aws = ok aws
  set_hcp hcp input aws = do
    encrypted ← process_etc_kms_key_arn input.etcd_kms_key_arn aws
    ok (record encrypted { billing_account_id = input.billing_account_id })

  -- The settings before the private hosted zones.
  unfoldable pub settle : ClusterTopology → AwsInput → Result ClusterError AwsBuilder
  settle topology input = do
    encrypted ← process_kms_key_arn input.root_volume_kms_key_arn (start_aws input)
    set_hcp topology input encrypted

  unfoldable pub build_aws : ClusterTopology → AwsInput → Result ClusterError AwsBuilder
  build_aws topology input = do
    check_input topology input
    hosted ← settle topology input
    set_hosted_zone topology input input.private_hosted_zone_id input.private_hosted_zone_role_arn
        hosted

  unfoldable pub create_aws_builder :
      ClusterTopology → AwsInput → ClusterBuilder → Result ClusterError ClusterBuilder
  create_aws_builder topology input builder = do
    aws ← build_aws topology input
    ok (record builder { aws = some aws })
