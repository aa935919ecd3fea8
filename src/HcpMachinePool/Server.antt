-- ===== src/HcpMachinePool/Server.antt =====
-- The client of the resource: requests and their answers, which may depend on every request before.
use terraform_provider_ocm.Prelude.{ℕ, String, Bool, Option, List, [], ◌∷◌, ℤ, err}
use terraform_provider_ocm.Common.Framework.{Framework}
use terraform_provider_ocm.Common.Response.{Diagnostic, error}
use terraform_provider_ocm.Handler.{Handling}
use terraform_provider_ocm.Sdk.{Cluster, Reply}
use terraform_provider_ocm.Upgrade
use terraform_provider_ocm.HcpMachinePool.State.{NodePool, NodePoolAutoscaling}

-- The identifiers are the cluster's and the pool's.
pub data Request : Type 0 where
  get_cluster list_pools : String → Request
  get_pool delete_pool : String → String → Request
  add_pool : String → NodePool → Request
  update_pool : String → String → NodePool → Request
  upgrade_request : Upgrade.Request → Request

-- The newest request first.
abbrev pub History : Type 0
History = List Request

pub record Server : Type 0 where
  -- `ClusterWait.WaitForClusterToBeReady`; `none` is an error.
  pub wait_for_cluster : History → String → Option Cluster
  pub on_get_cluster : History → String → Reply Cluster
  pub on_list_pools : History → String → Reply ℕ  -- the size of the answer
  pub on_get_pool : History → String → String → Reply NodePool
  pub on_delete_pool : History → String → String → Reply (Unit {0})
  pub on_add_pool : History → String → NodePool → Reply NodePool
  pub on_update_pool : History → String → String → NodePool → Reply NodePool

-- What the resource uses and does not implement.
pub record Env (V : Type 0) : Type 0 where
  pub framework : Framework
  pub server : Server
  pub is_empty : NodePoolAutoscaling → Bool  -- `Empty` of the autoscaling builder
  pub build : NodePool → Option NodePool  -- `Build`; `none` is an error
  pub disk_size_ok : ℤ → Bool  -- `ValidateNodePoolRootDiskSize`
  pub create_version_id : String → String → String  -- by version and channel group
  pub upgrades : History → Upgrade.Env V  -- the upgrades of this pool, after this history
  pub upgrade_fuel : ℕ  -- the pages of upgrade policies that are read

abbrev pub Action {ℓ} : Type ℓ → Type ℓ
Action A = Handling Request A

-- Where the source reads a field of a nil pointer. The schema requires both objects of a plan.
abbrev pub nil_pointer_error : List Diagnostic
nil_pointer_error = error "panic" "nil pointer" ∷ []

abbrev pub nil_pointer {ℓ} : {A : Type ℓ} → Action A
nil_pointer h = (err nil_pointer_error, h)
