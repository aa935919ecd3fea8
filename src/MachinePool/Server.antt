-- ===== src/MachinePool/Server.antt =====
-- The client of the machine pool resource: requests, their answers, and handlers as actions that
-- may end with diagnostics. An answer may depend on every request before it.
use terraform_provider_ocm.Prelude.{ℕ, String, Bool, Option, List, ℤ}
use terraform_provider_ocm.Handler.{Handling}
pub use terraform_provider_ocm.Handler.{
  pure, lift, and_then, ◌>>=◌, ◌>>◌, fail, fail_when, body_or_fail, ok_or_fail, respond,
}
unfoldable pub use terraform_provider_ocm.Handler.{send}
use terraform_provider_ocm.Common.Framework.{Framework}
use terraform_provider_ocm.Sdk.{Cluster, Reply}
use terraform_provider_ocm.MachinePool.State.{Autoscaling, MachinePool}

-- The identifiers are the cluster's and the pool's.
pub data Request : Type 0 where
  get_cluster list_pools : String → Request
  get_pool delete_pool : String → String → Request
  add_pool : String → MachinePool → Request
  update_pool : String → String → MachinePool → Request

-- The newest request first.
abbrev pub History : Type 0
History = List Request

pub record Server : Type 0 where
  -- `ClusterWait.WaitForClusterToBeReady`; `none` is an error.
  pub wait_for_cluster : History → String → Option Cluster
  pub on_get_cluster : History → String → Reply Cluster
  pub on_list_pools : History → String → Reply ℕ  -- the size of the answer
  pub on_get_pool : History → String → String → Reply MachinePool
  pub on_delete_pool : History → String → String → Reply (Unit {0})
  pub on_add_pool : History → String → MachinePool → Reply MachinePool
  pub on_update_pool : History → String → String → MachinePool → Reply MachinePool

-- What the resource uses and does not implement.
pub record Env : Type 0 where
  pub framework : Framework
  pub server : Server
  pub is_empty : Autoscaling → Bool  -- `Empty` of the autoscaling builder
  pub build : MachinePool → Option MachinePool  -- `Build`; `none` is an error
  pub disk_size_ok : String → ℤ → Bool  -- `ValidateMachinePoolRootDiskSize`, by version and size

abbrev pub Action {ℓ} : Type ℓ → Type ℓ
Action A = Handling Request A
