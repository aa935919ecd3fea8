-- ===== src/HcpMachinePool/Read/Laws.antt =====
-- Reading a node pool: the requests that it sends, and the pool whose state it gives.
use terraform_provider_ocm.Prelude.{
  ◌≡◌, ◌⊎◌, inl, inr, refl, String, Option, none, some, ◌∷◌, nat_eq, OnOk, arith,
}
use terraform_provider_ocm.Common.Attribute.{Value, known, value_string}
use terraform_provider_ocm.Sdk.{Cluster, Reply, success, failure, not_found}
use terraform_provider_ocm.Handler.{pure}
use terraform_provider_ocm.Handler.Logic.{
  Ensures, Any, lift-Ensures, send-Ensures, send-Answers, >>=-Ensures, if-Ensures, OnOk-ok_or_fail,
}
use terraform_provider_ocm.HcpMachinePool.State.{HcpMachinePoolState, NodePool}
use terraform_provider_ocm.HcpMachinePool.Populate.{populate_state}
use terraform_provider_ocm.HcpMachinePool.Server.{get_cluster, get_pool, History, Env}
use terraform_provider_ocm.HcpMachinePool.Read.{
  PoolRead, pool_not_found, pool_state, cluster_or_nil, fetch_cluster, populate_read, read_pool,
  read_state,
}

module _ (P : History → Type 0) where
  cluster_or_nil-Ensures : (reply : Reply Cluster) → Ensures P (cluster_or_nil reply) Any
  unfolding cluster_or_nil
  cluster_or_nil-Ensures (success cluster) = λ h p. (p, tt)
  cluster_or_nil-Ensures (failure status) =
      if-Ensures P Any (nat_eq status not_found) (pure none) _ (λ h p. (p, tt)) (λ h p. (p, tt))

module _ {V : Type 0} (env : Env V) (P : History → Type 0) where
  pub fetch_cluster-Ensures :
      (id : Value String)
      → ((h : History) → P h → P (get_cluster (value_string id) ∷ h))
      → Ensures P (fetch_cluster env id) Any
  unfolding fetch_cluster
  fetch_cluster-Ensures id keep =
      >>=-Ensures P (λ (r : Reply Cluster). Unit {0}) Any _ _
        (send-Ensures P (get_cluster (value_string id))
          (λ h. env.server.on_get_cluster h (value_string id)) keep)
        (λ reply u. cluster_or_nil-Ensures P reply)

  -- The state is of the same cluster; its pool is the same too, or the one that the API answers with.
  abbrev pub IsSamePool : HcpMachinePoolState → HcpMachinePoolState → Type 0
  IsSamePool before state =
      (state.cluster ≡ before.cluster)
      × ((state.id ≡ before.id)
          ⊎ ((h : History) × (object : NodePool) × (env.server.on_get_pool h
                  (value_string before.cluster) (value_string before.id)
                ≡ success object)
              × (state.id ≡ known object.id)))

  abbrev pub Reads : HcpMachinePoolState → PoolRead → Type 0
  Reads before pool_not_found = Unit
  Reads before (pool_state state) = IsSamePool before state

  populate_state-ids :
      (object : NodePool) (before : HcpMachinePoolState) (cluster : Cluster)
      → OnOk
          (λ state. (state.cluster ≡ before.cluster) × (state.id ≡ known object.id))
          (populate_state env.framework object before cluster)
  unfolding populate_state
  populate_state-ids object before cluster = ground arith

  populate_read-Reads :
      (reply : Reply NodePool) (before : HcpMachinePoolState) (cluster : Cluster)
      → ((h : History) × (env.server.on_get_pool h
              (value_string before.cluster)
              (value_string before.id)
            ≡ reply))
      → Ensures P (populate_read env reply before cluster) (Reads before)
  unfolding populate_read
  populate_read-Reads (failure status) before cluster answer =
      if-Ensures P (Reads before) (nat_eq status not_found) (pure pool_not_found) _ (λ h p. (p, tt))
        (λ h p. (p, tt))
  populate_read-Reads (success object) before cluster (h, e) =
      let Ids : HcpMachinePoolState → Type 0 =
        λ state. (state.cluster ≡ before.cluster) × (state.id ≡ known object.id) in
      >>=-Ensures P Ids (Reads before) _ _
        (lift-Ensures P Ids _
          (OnOk-ok_or_fail Ids _ _ _ (populate_state-ids object before cluster)))
        (λ s (same, is). λ k p. (p, (same, inr (h, object, e, is))))

  read_pool-Reads :
      (before : HcpMachinePoolState) (cluster : Option Cluster)
      → ((h : History)
          → P h
          → P (get_pool (value_string before.cluster) (value_string before.id) ∷ h))
      → Ensures P (read_pool env before cluster) (Reads before)
  unfolding read_pool
  read_pool-Reads before none keep = λ h p. (p, (refl, inl refl))
  read_pool-Reads before (some cluster) keep =
      let cid = value_string before.cluster in
      let pid = value_string before.id in
      >>=-Ensures P (λ reply. (h : History) × (env.server.on_get_pool h cid pid ≡ reply))
        (Reads before) _ _
        (send-Answers P (get_pool cid pid) (λ h. env.server.on_get_pool h cid pid) keep)
        (λ reply answer. populate_read-Reads reply before cluster answer)

  pub read_state-Reads :
      (before : HcpMachinePoolState)
      → ((h : History) → P h → P (get_cluster (value_string before.cluster) ∷ h))
      → ((h : History)
          → P h
          → P (get_pool (value_string before.cluster) (value_string before.id) ∷ h))
      → Ensures P (read_state env before) (Reads before)
  unfolding read_state
  read_state-Reads before keep keep_pool =
      >>=-Ensures P Any (Reads before) _ _ (fetch_cluster-Ensures before.cluster keep)
        (λ cluster u. read_pool-Reads before cluster keep_pool)
