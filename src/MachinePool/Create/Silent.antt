-- ===== src/MachinePool/Create/Silent.antt =====
-- A create whose request for the cluster fails.
use terraform_provider_ocm.Prelude.{ℕ, true, false, ◌==◌, ◌≡◌, refl, some, [], ◌∷◌, ℤ, codes}
use terraform_provider_ocm.Common.Attribute.{known, value_string, optional_int64}
use terraform_provider_ocm.Common.Response.{unchanged}
use terraform_provider_ocm.Sdk.{Cluster, failure}
use terraform_provider_ocm.MachinePool.State.{MachinePoolState}
use terraform_provider_ocm.MachinePool.Builder.{matches_name, default_machine_pool_name}
use terraform_provider_ocm.MachinePool.Create.{
  cluster_or_return, check_size, create_new, create_in, await_cluster, do_create, create,
}
use terraform_provider_ocm.MachinePool.Server.{get_cluster, History, Env, send}

-- A create for a new pool with a disk size ends with no diagnostic and without saving a state, if
-- the cluster is ready but the request for its version fails: nothing is reported and no pool is
-- added.
pub create-silent :
    (env : Env) (plan : MachinePoolState) (h : History) (cluster : Cluster) (size : ℤ) (status : ℕ)
    → matches_name (codes (value_string plan.name)) ≡ true
    → (value_string plan.name == default_machine_pool_name) ≡ false
    → plan.disk_size ≡ known size
    → env.server.wait_for_cluster h (value_string plan.cluster) ≡ some cluster
    → env.server.on_get_cluster h (value_string plan.cluster) ≡ failure status
    → create env plan h ≡ (
      record { diagnostics = []; state = unchanged },
      get_cluster (value_string plan.cluster) ∷ h,
    )
unfolding create do_create await_cluster create_in create_new check_size cluster_or_return send
    optional_int64
create-silent env plan h cluster size status proper not_default sized waited failed =
    rw (proper, waited, not_default, sized, failed) refl
