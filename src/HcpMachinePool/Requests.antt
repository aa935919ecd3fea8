-- ===== src/HcpMachinePool/Requests.antt =====
-- What the requests of an update and of a create of a node pool have to satisfy.
use terraform_provider_ocm.Prelude.{
  true, false, ◌||◌, ◌≡◌, ◌⊎◌, none, some, codes, ℤ, is_some, String,
}
use terraform_provider_ocm.MachinePool.Builder.{matches_name}
use terraform_provider_ocm.Common.Attribute.{value_string}
use terraform_provider_ocm.Sdk.{success}
use terraform_provider_ocm.Upgrade
use terraform_provider_ocm.Upgrade.Hosted.Laws.{IsPoolAllowed}
use terraform_provider_ocm.HcpMachinePool.State.{HcpMachinePoolState, NodePool}
use terraform_provider_ocm.HcpMachinePool.Update.{versioned}
use terraform_provider_ocm.HcpMachinePool.Builder.{is_standard_name}
use terraform_provider_ocm.HcpMachinePool.Server.{
  Request, get_cluster, list_pools, get_pool, delete_pool, add_pool, update_pool, upgrade_request,
  History, Env,
}

-- Either a range of replicas or a count, and not both.
abbrev pub IsScaledOnce : NodePool → Type 0
IsScaledOnce b =
    ((lo : ℤ) × (hi : ℤ) × (b.autoscaling
        ≡ some (record { min_replica = some lo; max_replica = some hi }))
      × (b.replicas ≡ none))
    ⊎ ((n : ℤ) × (b.replicas ≡ some n) × (b.autoscaling ≡ none))

-- A pool that is added has a proper name that is no default pool's.
pub record IsNamed (b : NodePool) : Type 0 where
  pub proper : matches_name (codes b.id) ≡ true
  pub not_standard : is_standard_name (codes b.id) ≡ false

-- The body of a patch of the pool with this identifier.
abbrev pub IsPatchOf : String → NodePool → Type 0
IsPatchOf pid b = (b.id ≡ pid) × IsScaledOnce b

module _ {V : Type 0} (env : Env V) where
  -- A request of an upgrade that the pool may be given.
  abbrev pub IsUpgrading : HcpMachinePoolState → HcpMachinePoolState → Upgrade.Request → Type 0
  IsUpgrading state plan r =
      let cid = value_string state.cluster in
      let pid = value_string state.id in
      (h : History) × IsPoolAllowed (env.upgrades h) cid pid (versioned state) (versioned plan) r

  -- The plan's cluster is read; the pool of the state is read, upgraded and patched, and no other.
  abbrev pub IsSent : HcpMachinePoolState → HcpMachinePoolState → Request → Type 0
  IsSent state plan (get_cluster cid) = cid ≡ value_string plan.cluster
  IsSent state plan (list_pools cid) = ⊥
  IsSent state plan (get_pool cid pid) =
      (cid ≡ value_string state.cluster) × (pid ≡ value_string state.id)
  IsSent state plan (delete_pool cid pid) = ⊥
  IsSent state plan (add_pool cid b) = ⊥
  IsSent state plan (update_pool cid pid b) =
      (cid ≡ value_string state.cluster) × (pid ≡ value_string state.id) × IsPatchOf pid b
  IsSent state plan (upgrade_request r) = IsUpgrading state plan r

  module _ (plan : HcpMachinePoolState) where
    -- The pool that the plan names: that of this name, or the pool that the API answers with when it
    -- is asked, after some requests, for this name in the plan's cluster.
    abbrev pub IsPlanned : String → Type 0
    IsPlanned pid =
        (pid ≡ value_string plan.name)
        ⊎ ((h : History) × (object : NodePool) × (env.server.on_get_pool h
                (value_string plan.cluster) (value_string plan.name)
              ≡ success object)
            × (pid ≡ object.id))

    abbrev pub IsDefault : Type 0
    IsDefault = is_standard_name (codes (value_string plan.name)) ≡ true

    -- A state of the planned pool.
    abbrev pub IsOfPlan : HcpMachinePoolState → Type 0
    IsOfPlan state = (state.cluster ≡ plan.cluster) × IsPlanned (value_string state.id)

    -- What a create of this plan sends.
    abbrev pub IsCreating : Request → Type 0
    IsCreating (get_cluster cid) = cid ≡ value_string plan.cluster
    IsCreating (list_pools cid) = ⊥
    IsCreating (get_pool cid pid) = (cid ≡ value_string plan.cluster) × IsPlanned pid
    IsCreating (delete_pool cid pid) = ⊥
    IsCreating (add_pool cid b) = IsNamed b × ((is_some b.autoscaling || is_some b.replicas) ≡ true)
    IsCreating (update_pool cid pid b) =
        IsDefault × (cid ≡ value_string plan.cluster) × IsPlanned pid × IsPatchOf pid b
    IsCreating (upgrade_request r) =
        IsDefault × ((state : HcpMachinePoolState) × IsOfPlan state × IsUpgrading state plan r)

-- What the client library documents of `Build`: the object has the builder's fields.
abbrev pub Builds : {V : Type 0} → Env V → Type 0
Builds env = (b p : NodePool) → env.build b ≡ some p → p ≡ b
