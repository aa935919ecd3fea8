-- ===== src/MachinePool/Requests.antt =====
-- What every request that changes a machine pool has to satisfy.
use terraform_provider_ocm.Prelude.{true, false, ◌==◌, ◌≡◌, ◌⊎◌, none, some, All, codes, ℤ, String}
use terraform_provider_ocm.Common.Attribute.{value_string}
use terraform_provider_ocm.MachinePool.State.{MachinePoolState, MachinePool}
use terraform_provider_ocm.MachinePool.Builder.{matches_name, default_machine_pool_name}
use terraform_provider_ocm.MachinePool.Server.{
  Request, get_cluster, list_pools, get_pool, delete_pool, add_pool, update_pool, History, Env,
}

-- Either a range of replicas or a count, and not both.
abbrev pub IsScaledOnce : MachinePool → Type 0
IsScaledOnce b =
    ((lo : ℤ) × (hi : ℤ) × (b.autoscaling
        ≡ some (record { min_replicas = some lo; max_replicas = some hi }))
      × (b.replicas ≡ none))
    ⊎ ((n : ℤ) × (b.replicas ≡ some n) × (b.autoscaling ≡ none))

-- A pool that is added has a proper name that is not the default pool's.
pub record IsNamed (b : MachinePool) : Type 0 where
  pub proper : matches_name (codes b.id) ≡ true
  pub not_default : (b.id == default_machine_pool_name) ≡ false

abbrev pub IsProper : Request → Type 0
IsProper (get_cluster cid) = Unit
IsProper (list_pools cid) = Unit
IsProper (get_pool cid pid) = Unit
IsProper (delete_pool cid pid) = Unit
IsProper (add_pool cid b) = IsNamed b × IsScaledOnce b
IsProper (update_pool cid pid b) = (b.id ≡ pid) × IsScaledOnce b

abbrev pub AllProper : History → Type 0
AllProper = All IsProper

-- The body of a patch of the pool with this identifier.
abbrev pub IsPatchOf : String → MachinePool → Type 0
IsPatchOf pid b = (b.id ≡ pid) × IsScaledOnce b

-- What an update sends: the plan's cluster is read, and the pool of the state is read and patched.
abbrev pub IsSent : MachinePoolState → MachinePoolState → Request → Type 0
IsSent state plan (get_cluster cid) = cid ≡ value_string plan.cluster
IsSent state plan (list_pools cid) = ⊥
IsSent state plan (get_pool cid pid) =
    (cid ≡ value_string state.cluster) × (pid ≡ value_string state.id)
IsSent state plan (delete_pool cid pid) = ⊥
IsSent state plan (add_pool cid b) = ⊥
IsSent state plan (update_pool cid pid b) =
    (cid ≡ value_string state.cluster) × (pid ≡ value_string state.id) × IsPatchOf pid b

-- Such a request is proper.
pub IsSent-IsProper :
    (state plan : MachinePoolState) (r : Request) → IsSent state plan r → IsProper r
IsSent-IsProper state plan (get_cluster cid) sent = tt
IsSent-IsProper state plan (list_pools cid) sent = tt
IsSent-IsProper state plan (get_pool cid pid) sent = tt
IsSent-IsProper state plan (delete_pool cid pid) sent = tt
IsSent-IsProper state plan (add_pool cid b) sent = absurd sent
IsSent-IsProper state plan (update_pool cid pid b) (same_cluster, same_pool, patch) = patch

-- What the client library documents of `Build`: the object has the builder's fields.
abbrev pub Builds : Env → Type 0
Builds env = (b p : MachinePool) → env.build b ≡ some p → p ≡ b
