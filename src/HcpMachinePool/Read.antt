-- ===== src/HcpMachinePool/Read.antt =====
-- fetchCluster, readState, Read and ImportState of provider/machinepool/hcp.
pub mod Laws
use terraform_provider_ocm.Prelude.{
  String, ◌||◌, ◌==◌, Option, none, some, List, [], ◌∷◌, if◌then◌else◌, nat_eq, split_at,
}
use terraform_provider_ocm.Common.Attribute.{Value, value_string}
use terraform_provider_ocm.Common.Response.{Response, save, remove}
use terraform_provider_ocm.Sdk.{Cluster, Reply, success, failure, not_found}
use terraform_provider_ocm.Handler.{pure, lift, send, ◌>>=◌, ◌>>◌, fail, ok_or_fail, respond}
use terraform_provider_ocm.HcpMachinePool.State.{HcpMachinePoolState, NodePool}
use terraform_provider_ocm.HcpMachinePool.Populate.{populate_state}
use terraform_provider_ocm.HcpMachinePool.Server.{get_cluster, get_pool, History, Env, Action}

-- How a read of the pool went, where no diagnostic was added.
pub data PoolRead : Type 0 where
  pool_not_found : PoolRead
  pool_state : HcpMachinePoolState → PoolRead

unfoldable pub save_read : PoolRead → Response HcpMachinePoolState
save_read pool_not_found = remove
save_read (pool_state s) = save s

unfoldable pub cluster_or_nil : Reply Cluster → Action (Option Cluster)
cluster_or_nil (success cluster) = pure (some cluster)
cluster_or_nil (failure status) =
    if nat_eq status not_found then pure none else fail "Can't find cluster" ""

module _ {V : Type 0} (env : Env V) where
  open env use {framework, server}

  -- The nil cluster of a 404 comes without a diagnostic.
  unfoldable pub fetch_cluster : Value String → Action (Option Cluster)
  fetch_cluster id = do
    reply ← send (get_cluster (value_string id)) (λ h. server.on_get_cluster h (value_string id))
    cluster_or_nil reply

  unfoldable pub populate_read : Reply NodePool → HcpMachinePoolState → Cluster → Action PoolRead
  populate_read (failure status) state cluster =
      if nat_eq status not_found
      then pure pool_not_found
      else fail "Failed to fetch machine pool" ""
  populate_read (success object) state cluster = do
    s ← lift (
        ok_or_fail (populate_state framework object state cluster)
          "Can't populate machine pool state" "")
    pure (pool_state s)

  unfoldable pub read_pool : HcpMachinePoolState → Option Cluster → Action PoolRead
  read_pool state none = pure (pool_state state)
  read_pool state (some cluster) = do
    let cid = value_string state.cluster
    let pid = value_string state.id
    reply ← send (get_pool cid pid) (λ h. server.on_get_pool h cid pid)
    populate_read reply state cluster

  unfoldable pub read_state : HcpMachinePoolState → Action PoolRead
  read_state state = do cluster ← fetch_cluster state.cluster; read_pool state cluster

  unfoldable pub read : HcpMachinePoolState → History → Response HcpMachinePoolState × History
  read state h =
      let (r, h') = (read_state state >>= λ found. pure (save_read found)) h in (respond r, h')

-- `strings.Split` and the checks of `ImportState`: the cluster's and the pool's identifiers.
unfoldable pub import_fields : List String → Option (String × String)
import_fields (cluster_id ∷ pool_id ∷ []) =
    if cluster_id == "" || pool_id == "" then none else some (cluster_id, pool_id)
import_fields [] = none
import_fields (a ∷ []) = none
import_fields (a ∷ b ∷ c ∷ rest) = none

unfoldable pub import_state : String → Option (String × String)
unfolding import_fields split_at
import_state id = import_fields (split_at b',' id)
