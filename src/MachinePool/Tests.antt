-- ===== src/MachinePool/Tests.antt =====
-- A server with one cluster and one pool, runs of the handlers on it, and the theorems at these
-- runs.
mod Planning
mod Handlers
pub use terraform_provider_ocm.Samples.Framework.{framework, cluster, texts_of, entries_of}
use mathlib.Core.Option
use terraform_provider_ocm.Prelude.{
  ℕ, zero, suc, String, ◌≡◌, ◌≢◌, ◌↔◌, ◌⊎◌, inl, inr, refl, Bool, true, false, not, ◌||◌, ◌&&◌,
  Option, none, some, List, [], ◌∷◌, map, if◌then◌else◌, ℤ, pos, Dict, lookup, is_some, Result, ok,
  err, OnOk, arith, contains_key,
}
use terraform_provider_ocm.Common.Attribute.{Value, null, unknown, known, value_string}
use terraform_provider_ocm.Common.Framework.{Framework, known_entry}
use terraform_provider_ocm.Common.Response.{
  Diagnostic, Response, saved, removed, unchanged, has_error, save,
}
use terraform_provider_ocm.Sdk.{Cluster, ready, Reply, success, failure, not_found}
use terraform_provider_ocm.MachinePool.State.{
  MachinePoolState, Autoscaling, MachinePool, new_machine_pool,
}
use terraform_provider_ocm.MachinePool.Server.{
  Request, get_cluster, get_pool, add_pool, delete_pool, list_pools, update_pool, History, Server,
  Env,
}

abbrev pub pool : MachinePool
pool = record (new_machine_pool "workers") {
  instance_type = some "r5.xlarge";
  replicas = some (pos 3);
  availability_zones = "us-east-1a" ∷ "us-east-1b" ∷ "us-east-1c" ∷ [];
  subnets = "s1" ∷ "s2" ∷ "s3" ∷ [];
}

abbrev pub server : Server
server = record {
  wait_for_cluster = λ h id. some cluster;
  on_get_cluster = λ h id. success cluster;
  on_list_pools = λ h id. success 2;
  on_get_pool = λ h cid pid. success pool;
  on_delete_pool = λ h cid pid. failure 500;
  on_add_pool = λ h cid b. success b;
  on_update_pool = λ h cid pid b. success b;
}

abbrev pub is_empty_range : Autoscaling → Bool
is_empty_range a = not (is_some a.min_replicas || is_some a.max_replicas)

abbrev pub env : Env
env = record {
  framework = framework;
  server = server;
  is_empty = is_empty_range;
  build = λ b. some b;
  disk_size_ok = λ version size. true;
}

-- The cluster is not found, and neither is any pool.
abbrev pub env_without_cluster : Env
env_without_cluster = record env {
  server = record server {
    on_get_cluster = λ h id. failure not_found;
    on_get_pool = λ h cid pid. failure not_found;
  };
}

abbrev pub state : MachinePoolState
state = record {
  cluster = known "c1";
  id = known "workers";
  machine_type = known "r5.xlarge";
  name = known "workers";
  replicas = known (pos 3);
  use_spot_instances = null;
  max_spot_price = null;
  autoscaling_enabled = null;
  min_replicas = null;
  max_replicas = null;
  taints = none;
  labels = null;
  multi_availability_zone = known true;
  availability_zone = known "";
  availability_zones = null;
  subnet_id = known "";
  subnet_ids = null;
  disk_size = null;
  additional_security_group_ids = null;
  aws_tags = null;
  ignore_deletion_error = null;
}

-- Another count of replicas, and a plan that would also move to another machine type.
abbrev pub plan : MachinePoolState
plan = record state { replicas = known (pos 6) }

abbrev pub other_type : MachinePoolState
other_type = record plan { machine_type = known "m5.xlarge" }

-- A plan for a new pool.
abbrev pub new_plan : MachinePoolState
new_plan = record state {
  id = unknown;
  name = known "workers";
  multi_availability_zone = null;
  availability_zone = unknown;
  subnet_id = unknown;
}
