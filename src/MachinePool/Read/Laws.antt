-- ===== src/MachinePool/Read/Laws.antt =====
-- What a read sends and saves, and the identifiers of an import.
use terraform_provider_ocm.Prelude.{
  String, ◌≡◌, ◌≢◌, ◌↔◌, inl, inr, Option, none, some, ◌∷◌, Result, ok, err, arith, refl,
}
use terraform_provider_ocm.Common.Attribute.{Value, value_string}
use terraform_provider_ocm.Common.Response.{removed, save}
use terraform_provider_ocm.Sdk.{Cluster, Reply, success, failure, not_found, Reply-cases}
use terraform_provider_ocm.MachinePool.Populate.{populate_state}
use terraform_provider_ocm.Common.Framework.{ConversionError}
use terraform_provider_ocm.MachinePool.State.{MachinePoolState, MachinePool}
use terraform_provider_ocm.MachinePool.Read.{
  pool_state, cluster_or_nil, fetch_cluster, populate_read, read_pool, read_state, read, save_read,
}
use terraform_provider_ocm.MachinePool.Requests.{AllProper}
use terraform_provider_ocm.MachinePool.Server.{
  get_cluster, get_pool, History, Env, pure, ok_or_fail, send, and_then, respond, ◌>>=◌, lift,
}
use terraform_provider_ocm.Handler.Logic.{Ensures, Any, pure-Ensures, send-Ensures, >>=-Ensures}

module _ (env : Env) (P : History → Type 0) where
  cluster_or_nil-Ensures : (reply : Reply Cluster) → Ensures P (cluster_or_nil env reply) Any
  unfolding cluster_or_nil
  cluster_or_nil-Ensures (success c) h p = (p, tt)
  cluster_or_nil-Ensures (failure status) h p = ground arith

  pub fetch_cluster-Ensures :
      (id : Value String)
      → ((h : History) → P h → P (get_cluster (value_string id) ∷ h))
      → Ensures P (fetch_cluster env id) Any
  unfolding fetch_cluster
  fetch_cluster-Ensures id keep =
      >>=-Ensures P Any Any _ _
        (send-Ensures P (get_cluster (value_string id))
          (λ h. env.server.on_get_cluster h (value_string id)) keep)
        (λ reply u. cluster_or_nil-Ensures reply)

module _ (env : Env) where
  populate_read-Ensures :
      (reply : Reply MachinePool) (state : MachinePoolState) (cluster : Cluster)
      → Ensures AllProper (populate_read env reply state cluster) Any
  unfolding populate_read
  populate_read-Ensures (success object) state cluster h p = ground arith
  populate_read-Ensures (failure status) state cluster h p = ground arith

  read_pool-Ensures :
      (state : MachinePoolState) (cluster : Option Cluster)
      → Ensures AllProper (read_pool env state cluster) Any
  unfolding read_pool
  read_pool-Ensures state none = pure-Ensures AllProper Any (pool_state state) tt
  read_pool-Ensures state (some cluster) =
      let cid = value_string state.cluster in
      let pid = value_string state.id in
      >>=-Ensures AllProper Any Any _ _
        (send-Ensures AllProper (get_pool cid pid) (λ h. env.server.on_get_pool h cid pid)
          (λ h p. (tt, p)))
        (λ reply u. populate_read-Ensures reply state cluster)

  pub read_state-Ensures : (state : MachinePoolState) → Ensures AllProper (read_state env state) Any
  unfolding read_state
  read_state-Ensures state =
      >>=-Ensures AllProper Any Any _ _
        (fetch_cluster-Ensures env AllProper state.cluster (λ h p. (tt, p)))
        (λ cluster u. read_pool-Ensures state cluster)

populated-stays :
    (r : Result ConversionError MachinePoolState) (t u : History)
    → (respond
        (and_then
          ((lift (ok_or_fail r "Can't populate machine pool state" "")
              >>= (λ s. pure (pool_state s)))
            t).0
          (λ found. pure (save_read found))
          u).0).state
      ≢ removed
unfolding save_read
populated-stays (ok s) t u = ground arith
populated-stays (err e) t u = ground arith

module _ (env : Env) (state : MachinePoolState) (h : History) where
  abbrev asked : History
  asked = get_cluster (value_string state.cluster) ∷ h

  abbrev found_cluster : Reply Cluster
  found_cluster = env.server.on_get_cluster h (value_string state.cluster)

  abbrev found_pool : Reply MachinePool
  found_pool = env.server.on_get_pool asked (value_string state.cluster) (value_string state.id)

  pool_read-removes_iff :
      (reply : Reply MachinePool) (c : Cluster) (t u : History)
      → ((respond
            (and_then
              (populate_read env reply state c t).0
              (λ found. pure (save_read found))
              u).0).state
          ≡ removed)
        ↔ (reply ≡ failure not_found)
  unfolding populate_read save_read
  pool_read-removes_iff (failure status) c t u = ground arith
  pool_read-removes_iff (success p) c t u = (
    (λ gone. absurd (populated-stays (populate_state env.framework p state c) t u gone)),
    ground arith,
  )

  -- A read removes the state exactly if the API has the cluster and answers 404 for the pool.
  pub read-removes_iff :
      ((read env state h).0.state ≡ removed)
      ↔ (((c : Cluster) × (found_cluster ≡ success c)) × (found_pool ≡ failure not_found))
  unfolding read read_state fetch_cluster cluster_or_nil read_pool populate_read save_read send
  read-removes_iff = elim (Reply-cases found_cluster) [
    | inr (status, e) ↦ rw e (ground arith)
    | inl (c, e) ↦ rw e (
        let removes =
          pool_read-removes_iff found_pool c
            (get_pool (value_string state.cluster) (value_string state.id) ∷ asked) _ in
        ((λ gone. ((c, refl), removes.0 gone)), λ found. removes.1 found.1))
  ]

  -- If the API answers 404 for the cluster, a read asks for nothing more, reports no error and saves
  -- the state as it was.
  pub read-lost_cluster : found_cluster ≡ failure not_found → read env state h ≡ (save state, asked)
  unfolding read read_state fetch_cluster cluster_or_nil read_pool save_read send
  read-lost_cluster lost = rw lost refl
