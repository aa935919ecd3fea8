-- ===== src/MachinePool/Create.antt =====
-- Create and magicImport of provider/machinepool/classic/machine_pool_resource.go.
pub mod Laws
pub mod Silent
use terraform_provider_ocm.Prelude.{
  ℕ, String, Bool, true, false, not, ◌&&◌, ◌||◌, ◌==◌, Option, none, some, List, [], ◌∷◌, map,
  if◌then◌else◌, Result, ok, err, ℤ, nat_eq, leb, all, codes, Dict, is_multiple, is_some,
}
use terraform_provider_ocm.MachinePool.Builder.{build_pool, matches_name, default_machine_pool_name}
use terraform_provider_ocm.Common.Attribute.{
  Value, null, known, has_value, value_string, value_int64, optional_int64, TfMap, TfList,
  map_elements,
}
use terraform_provider_ocm.Common.Framework.{Framework, optional_map, string_list_to_array}
use terraform_provider_ocm.Common.Response.{Diagnostic, error, Response, save, Saved, saved}
use terraform_provider_ocm.Sdk.{Cluster, Reply, success, failure}
use terraform_provider_ocm.MachinePool.State.{
  Taints, MachinePoolState, Taint, AwsMachinePool, MachinePool, new_machine_pool,
  new_aws_machine_pool,
}
use terraform_provider_ocm.MachinePool.Zones.{is_set, validate_az_config}
use terraform_provider_ocm.MachinePool.Scaling.{set_spot_instances, get_autoscaling, taint_builders}
use terraform_provider_ocm.MachinePool.Populate.{populate_state}
use terraform_provider_ocm.MachinePool.Read.{PoolRead, pool_not_found, pool_state, read_state}
use terraform_provider_ocm.MachinePool.Update.{
  adjust_initial_state_to_plan, do_update, label, not_exactly_one, set_replicas,
}
use terraform_provider_ocm.MachinePool.Server.{
  Request, get_cluster, add_pool, History, Server, Env, Action, pure, fail, lift, send, and_then,
  ◌>>=◌, ◌>>◌, fail_when, body_or_fail, ok_or_fail, respond,
}

-- The state before anything was read: every other field is the zero value, which is null.
unfoldable pub initial_state : Value String → String → MachinePoolState
initial_state cluster name = record {
  cluster = cluster;
  id = known name;
  machine_type = null;
  name = known name;
  replicas = null;
  use_spot_instances = null;
  max_spot_price = null;
  autoscaling_enabled = null;
  min_replicas = null;
  max_replicas = null;
  taints = none;
  labels = null;
  multi_availability_zone = null;
  availability_zone = null;
  availability_zones = null;
  subnet_id = null;
  subnet_ids = null;
  disk_size = null;
  additional_security_group_ids = null;
  aws_tags = null;
  ignore_deletion_error = null;
}

unfoldable pub built : Option MachinePool → Action MachinePool
built none = fail "Cannot build machine pool" "build"
built (some object) = pure object

module _ (env : Env) where
  open env use {framework, server, build, disk_size_ok}

  unfoldable pub import_read : MachinePoolState → PoolRead → Action MachinePoolState
  import_read plan pool_not_found = fail "Can't create machine pool" "default pool was deleted"
  import_read plan (pool_state state) = do_update env state plan

  unfoldable pub magic_import : MachinePoolState → Action MachinePoolState
  magic_import plan = do
    let name = value_string plan.name
    let plan' = record plan { id = known name }
    found ← read_state env (adjust_initial_state_to_plan (initial_state plan.cluster name) plan')
    import_read plan' found

  -- Where the cluster cannot be fetched, the diagnostic goes into a local list that nothing reads:
  -- the handler returns without one.
  unfoldable pub cluster_or_return : Reply Cluster → Action Cluster
  cluster_or_return (success found) h = (ok found, h)
  cluster_or_return (failure status) h = (err [], h)

  -- The size is checked against the version of the cluster, which is fetched for it.
  unfoldable pub check_size : MachinePoolState → Option ℤ → Action (Unit {0})
  check_size plan none = pure tt
  check_size plan (some size) = do
    let cid = value_string plan.cluster
    reply ← send (get_cluster cid) (λ h. server.on_get_cluster h cid)
    found ← cluster_or_return reply
    fail_when (not (disk_size_ok found.version size)) "Cannot build machine pool" "disk size"

  unfoldable pub create_new : Cluster → MachinePoolState → Action MachinePoolState
  create_new cluster plan = do
    check_size plan (optional_int64 plan.disk_size)
    made ← lift (build_pool env cluster plan)
    body ← built (build made.0)
    let cid = value_string plan.cluster
    reply ← send (add_pool cid body) (λ h. server.on_add_pool h cid body)
    object ← body_or_fail reply "Cannot create machine pool" ""
    lift (
        ok_or_fail (populate_state framework object made.1 cluster)
          "Can't populate machine pool state" "")

  unfoldable pub create_in : Option Cluster → MachinePoolState → Action MachinePoolState
  create_in none plan = fail "Cannot poll cluster state" ""
  create_in (some cluster) plan =
      if value_string plan.name == default_machine_pool_name
      then magic_import plan
      else create_new cluster plan

  -- The wait sends no request of its own to the pool's server.
  unfoldable pub await_cluster : MachinePoolState → Action (Option Cluster)
  await_cluster plan h = (ok (server.wait_for_cluster h (value_string plan.cluster)), h)

  -- The state to save, where no diagnostic was added.
  unfoldable pub do_create : MachinePoolState → Action MachinePoolState
  do_create plan = do
    fail_when (not (matches_name (codes (value_string plan.name)))) "Cannot create machine pool: "
        "name"
    cluster ← await_cluster plan
    create_in cluster plan

  unfoldable pub create : MachinePoolState → History → Response MachinePoolState × History
  create plan h = let (r, h') = (do_create plan >>= λ s. pure (save s)) h in (respond r, h')
