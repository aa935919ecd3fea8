-- ===== src/HcpMachinePool/Populate/Laws.antt =====
-- What a read of a node pool has put into the state.
use terraform_provider_ocm.Prelude.{
  String, true, false, ◌≡◌, Option, none, some, List, ◌∷◌, map, ℤ, trim_prefix, ◌≢◌,
}
use terraform_provider_ocm.Common.Attribute.{null, known, TfList}
use terraform_provider_ocm.Common.Framework.{Framework}
use terraform_provider_ocm.Upgrade.Versions.{version_prefix}
use terraform_provider_ocm.HcpMachinePool.State.{
  AwsNodePool, HcpMachinePoolState, new_aws_node_pool, AwsPool, PoolVersion, NodePool,
}
use terraform_provider_ocm.HcpMachinePool.Populate.{http_tokens_optional, or_new, or_zero}
use terraform_provider_ocm.HcpMachinePool.Populate.Tags.{TextTags}

-- The AWS settings of the object in those of the state.
pub record ReflectsAws (aws : AwsPool) (s : AwsNodePool) : Type 0 where
  pub instance_type : (t : String) → aws.instance_type ≡ some t → s.instance_type ≡ known t
  pub tokens :
      (t : String)
      → aws.ec2_metadata_http_tokens ≡ some t
      → (t ≡ "" → s.ec2_metadata_http_tokens ≡ known http_tokens_optional)
        × (t ≢ "" → s.ec2_metadata_http_tokens ≡ known t)
  pub groups :
      (gs : List String)
      → aws.additional_security_group_ids ≡ some gs
      → s.additional_security_group_ids ≡ known (map known gs)
  pub disk_size : (n : ℤ) → aws.root_volume ≡ some (some n) → s.disk_size ≡ known n

abbrev pub AwsIn : Option AwsPool → Option AwsNodePool → Type 0
AwsIn aws s =
    (pool : AwsPool) → aws ≡ some pool → (t : AwsNodePool) × (s ≡ some t) × ReflectsAws pool t

-- The object's fields in the state.
pub record Reflects (object : NodePool) (s : HcpMachinePoolState) : Type 0 where
  pub id : s.id ≡ known object.id
  pub name : s.name ≡ known object.id
  pub aws : AwsIn object.aws_node_pool s.aws_node_pool
  pub range :
      (lo hi : ℤ)
      → object.autoscaling ≡ some (record { min_replica = some lo; max_replica = some hi })
      → s.auto_scaling
        ≡ some (record { enabled = known true; min_replicas = known lo; max_replicas = known hi })
  pub no_range :
      object.autoscaling ≡ none
      → s.auto_scaling
        ≡ some (record { enabled = known false; min_replicas = null; max_replicas = null })
  pub replicas : (n : ℤ) → object.replicas ≡ some n → s.replicas ≡ known n
  pub subnet_id : s.subnet_id ≡ known (or_zero object.subnet)
  pub tuning_configs :
      (c : String) (cs : List String)
      → object.tuning_configs ≡ some (c ∷ cs)
      → s.tuning_configs ≡ known (known c ∷ map known cs)
  pub kubelet_configs :
      (c : String) (cs : List String)
      → object.kubelet_configs ≡ some (c ∷ cs)
      → s.kubelet_configs ≡ known c
  pub current_version :
      (v : PoolVersion) (id : String)
      → object.version ≡ some v
      → v.id ≡ some id
      → s.current_version ≡ known (trim_prefix id version_prefix)

-- The groups of an object in the state.
abbrev GroupsIn : Option (List String) → TfList → Type 0
GroupsIn groups s = (gs : List String) → groups ≡ some gs → s ≡ known (map known gs)

-- The tags of the state's AWS settings, or of new ones.
abbrev pub HasTextTags : HcpMachinePoolState → Type 0
HasTextTags state = TextTags (or_new new_aws_node_pool state.aws_node_pool).tags

abbrev ConfigsIn : Option (List String) → TfList → Type 0
ConfigsIn configs s =
    (c : String) (cs : List String) → configs ≡ some (c ∷ cs) → s ≡ known (known c ∷ map known cs)
