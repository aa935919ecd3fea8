-- ===== src/OcmCluster/Aws/Laws.antt =====
-- Which AWS settings a new cluster may have.
use terraform_provider_ocm.Prelude.{
  ◌≡◌, ◌⊎◌, ◌↔◌, refl, String, Bool, true, false, Option, none, some, Result, err, OnOk, OnOk->>=,
  OnOk->>, ◌>>=◌, OnOk-both, OnOk-weaken, is_some, arith,
}
use terraform_provider_ocm.OcmCluster.{
  ClusterTopology, classic, hcp, AwsBuilder, internal, external, ClusterBuilder, Validations,
  ClusterError, private_link_on_public,
}
use terraform_provider_ocm.OcmCluster.Arn.{matches_private_hosted_zone_role_arn}
use terraform_provider_ocm.OcmCluster.Aws.{
  AwsInput, check_input, start_aws, set_internal_zone, set_hosted_zone, set_api_privacy,
  process_kms_key_arn, process_etc_kms_key_arn, set_hcp, settle, build_aws, create_aws_builder,
}

-- The privacy is refused exactly for a private link to a public STS cluster; otherwise the API
-- listens inside exactly if the cluster is private, and nothing else of the cluster changes.
pub set_api_privacy-Listens :
    (is_private is_private_link is_sts : Bool) (builder : ClusterBuilder)
    → let r = set_api_privacy is_private is_private_link is_sts builder in
      ((r ≡ err private_link_on_public)
        ↔ ((is_sts ≡ true) × (is_private ≡ false) × (is_private_link ≡ true)))
      × OnOk
          (λ b.
            (b ≡ record builder { api = b.api })
            × ((b.api ≡ some internal) ↔ (is_private ≡ true))
            × ((b.api ≡ some external) ↔ (is_private ≡ false)))
          r
unfolding set_api_privacy
set_api_privacy-Listens is_private is_private_link is_sts builder = ground arith

module _ (topology : ClusterTopology) (input : AwsInput) where
  -- Both parts of a private hosted zone are set or neither is, and with them there are a proper role,
  -- STS and subnets; so it is with the inner one, which comes only with hosted control planes.
  pub record HasZones (aws : AwsBuilder) : Type 0 where
    pub outer_paired : is_some aws.private_hosted_zone_id ≡ is_some aws.private_hosted_zone_role_arn
    pub inner_paired :
        is_some aws.hcp_internal_communication_hosted_zone_id ≡ is_some aws.vpc_endpoint_role_arn
    pub outer :
        (arn : String)
        → aws.private_hosted_zone_role_arn ≡ some arn
        → (matches_private_hosted_zone_role_arn arn ≡ true)
          × (is_some aws.private_hosted_zone_id ≡ true)
          × (is_some input.sts ≡ true)
          × (is_some input.subnet_ids ≡ true)
    pub inner :
        (arn : String)
        → aws.vpc_endpoint_role_arn ≡ some arn
        → (matches_private_hosted_zone_role_arn arn ≡ true)
          × (topology ≡ hcp)
          × (is_some aws.hcp_internal_communication_hosted_zone_id ≡ true)
          × (is_some aws.private_hosted_zone_id ≡ true)

  -- Nothing is said of a private hosted zone yet.
  abbrev HasNoZone : AwsBuilder → Type 0
  HasNoZone aws =
      (aws.private_hosted_zone_id ≡ none)
      × (aws.private_hosted_zone_role_arn ≡ none)
      × (aws.hcp_internal_communication_hosted_zone_id ≡ none)
      × (aws.vpc_endpoint_role_arn ≡ none)

  set_hosted_zone-HasZones :
      (zone_id arn : Option String) (aws : AwsBuilder)
      → HasNoZone aws
      → OnOk HasZones (set_hosted_zone topology input zone_id arn aws)
  unfolding set_hosted_zone set_internal_zone
  set_hosted_zone-HasZones zone_id arn aws no_zone = ground arith

  -- The zones leave everything else of the settings.
  abbrev SameRest : AwsBuilder → AwsBuilder → Type 0
  SameRest a b =
      (b.subnet_ids ≡ a.subnet_ids)
      × (b.private_link ≡ a.private_link)
      × (b.kms_key_arn ≡ a.kms_key_arn)
      × (b.etcd_kms_key_arn ≡ a.etcd_kms_key_arn)
      × (b.billing_account_id ≡ a.billing_account_id)
      × (b.sts ≡ a.sts)

  set_hosted_zone-SameRest :
      (zone_id arn : Option String) (aws : AwsBuilder)
      → OnOk (SameRest aws) (set_hosted_zone topology input zone_id arn aws)
  unfolding set_hosted_zone set_internal_zone
  set_hosted_zone-SameRest zone_id arn aws = ground arith

module _ (validations : Validations) (topology : ClusterTopology) (input : AwsInput) where
  pub record IsSound (aws : AwsBuilder) : Type 0 where
    pub zones : HasZones topology input aws
    pub same_sts : aws.sts ≡ input.sts
    pub same_subnets : aws.subnet_ids ≡ input.subnet_ids
    pub needs_subnets : (topology ≡ hcp) ⊎ (aws.private_link ≡ true) → is_some aws.subnet_ids ≡ true
    pub no_etcd_key :
        topology ≡ classic → (input.etcd_kms_key_arn ≡ none) × (aws.etcd_kms_key_arn ≡ none)
    pub no_billing : topology ≡ classic → aws.billing_account_id ≡ none
    pub etcd_key :
        topology ≡ hcp
        → (aws.etcd_kms_key_arn ≡ input.etcd_kms_key_arn)
          × (validations.kms_key_arn_ok input.etcd_kms_key_arn ≡ true)
    pub key :
        (aws.kms_key_arn ≡ input.root_volume_kms_key_arn)
        × (validations.kms_key_arn_ok input.root_volume_kms_key_arn ≡ true)

  -- The settings before the zones.
  abbrev Settled : AwsBuilder → Type 0
  Settled aws =
      HasNoZone topology input aws
      × (aws.sts ≡ input.sts)
      × (aws.subnet_ids ≡ input.subnet_ids)
      × (aws.private_link ≡ input.is_private_link)
      × (topology ≡ classic → (aws.etcd_kms_key_arn ≡ none) × (aws.billing_account_id ≡ none))
      × (topology ≡ hcp
          → (aws.etcd_kms_key_arn ≡ input.etcd_kms_key_arn)
            × (validations.kms_key_arn_ok input.etcd_kms_key_arn ≡ true))
      × (aws.kms_key_arn ≡ input.root_volume_kms_key_arn)
      × (validations.kms_key_arn_ok input.root_volume_kms_key_arn ≡ true)

  settle-Settled : OnOk Settled (settle validations topology input)
  unfolding settle process_kms_key_arn set_hcp process_etc_kms_key_arn start_aws
  settle-Settled = ground arith

  -- What the first checks leave.
  abbrev Checked : Type 0
  Checked =
      ((topology ≡ hcp) ⊎ (input.is_private_link ≡ true) → is_some input.subnet_ids ≡ true)
      × (topology ≡ classic → input.etcd_kms_key_arn ≡ none)

  check_input-Checked : OnOk (λ u. Checked) (check_input topology input)
  unfolding check_input
  check_input-Checked = ground arith

  Checked-IsSound :
      (hosted aws : AwsBuilder)
      → Checked
      → Settled hosted
      → HasZones topology input aws
      → SameRest topology input hosted aws
      → IsSound aws
  Checked-IsSound hosted aws (subnets, etcd) (n, a, b, c, d, e, f, g) zones rest = record {
    zones = zones;
    same_sts = ground arith;
    same_subnets = ground arith;
    needs_subnets = λ h. ground arith;
    no_etcd_key = λ h. ground arith;
    no_billing = λ h. ground arith;
    etcd_key = λ h. ground arith;
    key = ground arith;
  }

  abbrev place : AwsBuilder → Result ClusterError AwsBuilder
  place =
      set_hosted_zone topology input input.private_hosted_zone_id input.private_hosted_zone_role_arn

  -- Settings that are accepted have both the identifier and the role of a private hosted zone or
  -- neither, and with them a proper role, STS and subnets; they have both parts of the inner one or
  -- neither, and with them a proper role, hosted control planes and the outer zone; they
  -- have subnets if the cluster has hosted control planes or a private link; a classic cluster has no
  -- etcd key and no billing account, and every key is one that the validation accepts. Nothing else of
  -- the cluster changes.
  pub create_aws_builder-IsSound :
      (builder : ClusterBuilder)
      → OnOk
          (λ b. (aws : AwsBuilder) × (b ≡ record builder { aws = some aws }) × IsSound aws)
          (create_aws_builder validations topology input builder)
  unfolding create_aws_builder build_aws
  create_aws_builder-IsSound builder =
      OnOk->>= IsSound _ (build_aws validations topology input) _
        (OnOk->> Checked IsSound (check_input topology input)
          (settle validations topology input >>= place) check_input-Checked
          (λ checked.
            OnOk->>= Settled IsSound (settle validations topology input) place settle-Settled
              (λ hosted settled.
                OnOk-weaken
                  (λ aws. HasZones topology input aws × SameRest topology input hosted aws) IsSound
                  (place hosted)
                  (λ aws (zones, rest). Checked-IsSound hosted aws checked settled zones rest)
                  (OnOk-both _ _ (place hosted)
                    (set_hosted_zone-HasZones topology input input.private_hosted_zone_id
                      input.private_hosted_zone_role_arn hosted settled.0)
                    (set_hosted_zone-SameRest topology input input.private_hosted_zone_id
                      input.private_hosted_zone_role_arn hosted)))))
        (λ aws sound. (aws, refl, sound))
