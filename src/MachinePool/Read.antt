-- ===== src/MachinePool/Read.antt =====
-- fetchCluster, readState, Read and ImportState of provider/machinepool/classic.
pub mod Laws
pub mod Import
use terraform_provider_ocm.Prelude.{
  ℕ, String, Bool, true, false, ◌||◌, ◌==◌, Option, none, some, List, [], ◌∷◌, if◌then◌else◌,
  Result, ok, err, nat_eq, split_at, codes,
}
use terraform_provider_ocm.Common.Attribute.{Value, known, value_string}
use terraform_provider_ocm.Common.Response.{Diagnostic, error, Response, save, remove, refuse}
use terraform_provider_ocm.Sdk.{Cluster, Reply, success, failure, not_found}
use terraform_provider_ocm.MachinePool.State.{MachinePoolState, MachinePool}
use terraform_provider_ocm.MachinePool.Populate.{populate_state}
use terraform_provider_ocm.MachinePool.Server.{
  Request, get_cluster, get_pool, History, Server, Env, Action, pure, fail, lift, send, and_then,
  ◌>>=◌, ◌>>◌, body_or_fail, ok_or_fail, respond,
}

-- How a read of the pool went, where no diagnostic was added.
pub data PoolRead : Type 0 where
  pool_not_found : PoolRead
  pool_state : MachinePoolState → PoolRead

unfoldable pub save_read : PoolRead → Response MachinePoolState
save_read pool_not_found = remove
save_read (pool_state s) = save s

module _ (env : Env) where
  open env use {framework, server}

  unfoldable pub cluster_or_nil : Reply Cluster → Action (Option Cluster)
  cluster_or_nil (success c) = pure (some c)
  cluster_or_nil (failure status) =
      if nat_eq status not_found then pure none else fail "Can't find cluster" ""

  -- The nil cluster of a 404 comes without a diagnostic.
  unfoldable pub fetch_cluster : Value String → Action (Option Cluster)
  fetch_cluster id = do
    reply ← send (get_cluster (value_string id)) (λ h. server.on_get_cluster h (value_string id))
    cluster_or_nil reply

  unfoldable pub populate_read : Reply MachinePool → MachinePoolState → Cluster → Action PoolRead
  populate_read (failure status) state cluster =
      if nat_eq status not_found
      then pure pool_not_found
      else fail "Failed to fetch machine pool" ""
  populate_read (success object) state cluster = do
    s ← lift (
        ok_or_fail (populate_state framework object state cluster)
          "Can't populate machine pool state" "")
    pure (pool_state s)

  unfoldable pub read_pool : MachinePoolState → Option Cluster → Action PoolRead
  read_pool state none = pure (pool_state state)
  read_pool state (some cluster) = do
    let cid = value_string state.cluster
    let pid = value_string state.id
    reply ← send (get_pool cid pid) (λ h. server.on_get_pool h cid pid)
    populate_read reply state cluster

  unfoldable pub read_state : MachinePoolState → Action PoolRead
  read_state state = do cluster ← fetch_cluster state.cluster; read_pool state cluster

  unfoldable pub read : MachinePoolState → History → Response MachinePoolState × History
  read state h =
      let (r, h') = (read_state state >>= λ found. pure (save_read found)) h in (respond r, h')

-- `strings.Split` and the checks of `ImportState`: the cluster's and the pool's identifiers.
unfoldable pub import_fields : List String → Option (String × String)
import_fields (cluster_id ∷ pool_id ∷ []) =
    if cluster_id == "" || pool_id == "" then none else some (cluster_id, pool_id)
import_fields [] = none
import_fields (a ∷ []) = none
import_fields (a ∷ b ∷ c ∷ rest) = none

unfoldable pub import_state : String → Option (String × String)
unfolding import_fields split_at
import_state id = import_fields (split_at b',' id)
