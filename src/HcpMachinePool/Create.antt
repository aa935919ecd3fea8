-- ===== src/HcpMachinePool/Create.antt =====
-- Create and magicImport of provider/machinepool/hcp/machine_pool_resource.go.
pub mod Added
pub mod Laws
use terraform_provider_ocm.Prelude.{
  ℕ, String, Bool, true, false, not, ◌&&◌, ◌||◌, Option, none, some, List, [], ◌∷◌, ◌++◌, map,
  if◌then◌else◌, Result, ok, err, ℤ, nat_eq, leb, all, codes, Dict,
}
use terraform_provider_ocm.Common.Attribute.{
  Value, null, known, has_value, value_string, optional_int64, map_elements,
  is_string_attribute_unknown_or_empty, bool_with_true_default,
}
use terraform_provider_ocm.Common.Framework.{ConversionError, optional_map, string_list_to_array}
use terraform_provider_ocm.Common.Response.{Diagnostic, error, Response, save, saved}
use terraform_provider_ocm.Sdk.{Cluster}
use terraform_provider_ocm.Handler.{
  pure, lift, send, ◌>>=◌, ◌>>◌, fail, fail_when, body_or_fail, built_or_fail, ok_or_fail, respond,
}
use terraform_provider_ocm.MachinePool.State.{Taints, Taint}
use terraform_provider_ocm.MachinePool.Scaling.{taint_builders}
use terraform_provider_ocm.MachinePool.Update.{label}
use terraform_provider_ocm.MachinePool.Builder.{matches_name}
use terraform_provider_ocm.HcpMachinePool.State.{
  AutoScaling, AwsNodePool, HcpMachinePoolState, AwsPool, new_aws_pool, NodePool, new_node_pool,
}
use terraform_provider_ocm.HcpMachinePool.Scaling.{get_autoscaling, set_replicas}
use terraform_provider_ocm.HcpMachinePool.Populate.{http_tokens_optional, populate_state}
use terraform_provider_ocm.HcpMachinePool.Read.{PoolRead, pool_not_found, pool_state, read_state}
use terraform_provider_ocm.HcpMachinePool.Update.{
  adjust_initial_state_to_plan, with_tuning_configs, do_update,
}
use terraform_provider_ocm.HcpMachinePool.Server.{add_pool, History, Env, Action, nil_pointer}
use terraform_provider_ocm.HcpMachinePool.Builder.{
  is_standard_name, set_plain, start_builder, set_subnet, scale, set_tuning_configs, set_version,
}

-- The state before anything was read: every other field is the zero value, which is null.
unfoldable pub initial_state : Value String → String → HcpMachinePoolState
initial_state cluster name = record {
  id = known name;
  name = known name;
  cluster = cluster;
  replicas = null;
  auto_scaling = none;
  taints = none;
  labels = null;
  availability_zone = null;
  subnet_id = null;
  version = null;
  current_version = null;
  upgrade_acks_for = null;
  node_pool_status = null;
  aws_node_pool = none;
  tuning_configs = null;
  kubelet_configs = null;
  auto_repair = null;
  ignore_deletion_error = null;
}

-- A later error stands after the diagnostics so far.
unfoldable pub after_earlier {ℓ} : {A : Type ℓ} → List Diagnostic → Action A → Action A
after_earlier earlier action h =
    let (r, h') = action h in (elim r [ ok a ↦ ok a | err later ↦ err (earlier ++ later) ], h')

module _ {V : Type 0} (env : Env V) where
  open env use {framework, server, build}

  -- The pool is added for the cluster that was waited for.
  unfoldable pub add_built : Cluster → HcpMachinePoolState → NodePool → Action HcpMachinePoolState
  add_built cluster plan scaled = do
    tuned ← lift (set_tuning_configs env plan (set_plain plan scaled))
    body ←
        built_or_fail (build (set_version env cluster plan tuned)) "Cannot build machine pool"
          "build"
    reply ← send (add_pool cluster.id body) (λ h. server.on_add_pool h cluster.id body)
    object ← body_or_fail reply "Cannot create machine pool" ""
    lift (
        ok_or_fail (populate_state framework object plan cluster)
          "Can't populate machine pool state" "")

  unfoldable pub create_new : Cluster → HcpMachinePoolState → Action (Response HcpMachinePoolState)
  create_new cluster plan = do
    started ← lift (start_builder env plan plan.aws_node_pool)
    scaled ← lift (scale env plan (set_subnet plan started.0) plan.auto_scaling)
    state ← after_earlier scaled.0 (add_built cluster started.1 scaled.1)
    pure (record { diagnostics = scaled.0; state = saved state })

  unfoldable pub import_read : HcpMachinePoolState → PoolRead → Action HcpMachinePoolState
  import_read plan pool_not_found = fail "Can't create machine pool" "default pool was deleted"
  import_read plan (pool_state state) = do_update env state plan

  unfoldable pub import_from :
      HcpMachinePoolState → HcpMachinePoolState → Action HcpMachinePoolState
  import_from plan start = do found ← read_state env start; import_read plan found

  unfoldable pub magic_import : HcpMachinePoolState → Action HcpMachinePoolState
  magic_import plan = do
    let name = value_string plan.name
    let plan' = record plan { id = known name }
    start ← adjust_initial_state_to_plan (initial_state plan.cluster name) plan'
    import_from plan' start

  unfoldable pub create_in :
      Option Cluster → HcpMachinePoolState → Action (Response HcpMachinePoolState)
  create_in none plan = fail "Cannot poll cluster state" ""
  create_in (some cluster) plan =
      if is_standard_name (codes (value_string plan.name))
      then (magic_import plan >>= λ s. pure (save s))
      else create_new cluster plan

  -- The wait sends no request of its own to the pool's server.
  unfoldable pub await_cluster : HcpMachinePoolState → Action (Option Cluster)
  await_cluster plan h = (ok (server.wait_for_cluster h (value_string plan.cluster)), h)

  unfoldable pub do_create : HcpMachinePoolState → Action (Response HcpMachinePoolState)
  do_create plan = do
    fail_when (not (matches_name (codes (value_string plan.name)))) "Cannot create machine pool: "
        "name"
    cluster ← await_cluster plan
    create_in cluster plan

  unfoldable pub create : HcpMachinePoolState → History → Response HcpMachinePoolState × History
  create plan h = let (r, h') = do_create plan h in (respond r, h')
