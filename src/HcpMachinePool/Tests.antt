-- ===== src/HcpMachinePool/Tests.antt =====
-- A server with one cluster and one node pool, runs of the handlers on it, and the theorems at these
-- runs.
use terraform_provider_ocm.Prelude.Text.{trim_prefix}
use terraform_provider_ocm.MachinePool.Populate.{set_or_keep, taints_state, or_return}
use terraform_provider_ocm.Client.{send}
use terraform_provider_ocm.HcpMachinePool.Scaling.{get_autoscaling}
use terraform_provider_ocm.Common.Framework.{optional_map, string_list_to_array}
use terraform_provider_ocm.MachinePool.Builder.{
  matches_name, is_lower, ends_well, is_lower_or_digit,
}
use terraform_provider_ocm.Prelude.{
  ℕ, ◌≡◌, refl, Bool, true, false, not, ◌||◌, none, some, [], ◌∷◌, pos, is_some, codes,
}
use terraform_provider_ocm.Common.Attribute.{
  null, known, has_value, optional_int64, is_string_attribute_unknown_or_empty,
  bool_with_true_default,
}
use terraform_provider_ocm.Common.Response.{saved, has_error}
use terraform_provider_ocm.Sdk.{success}
use terraform_provider_ocm.Samples.Framework.{framework, cluster}
use terraform_provider_ocm.Samples.Upgrades
use terraform_provider_ocm.HcpMachinePool.State.{
  AutoScaling, AwsNodePool, HcpMachinePoolState, new_aws_node_pool, NodePoolAutoscaling, NodePool,
  new_node_pool,
}
use terraform_provider_ocm.HcpMachinePool.Server.{Server, Env}
use terraform_provider_ocm.HcpMachinePool.Scaling.Laws.{SeesFields}
use terraform_provider_ocm.HcpMachinePool.Builder.{
  is_standard_name, after_runes, after_worker, is_numbered, start_builder, default_http_tokens,
  build_aws, tags_or_return, security_groups_of, root_volume_of, tags_of_plan, set_subnet, scale,
  check_when, both_given, set_plain, taints_of_plan, set_tuning_configs, set_version,
}
use terraform_provider_ocm.HcpMachinePool.Builder.Laws.{gives_both}
use terraform_provider_ocm.Client.Logic.{Adds}
use terraform_provider_ocm.HcpMachinePool.Requests.{IsSent, IsCreating, Builds}
use terraform_provider_ocm.HcpMachinePool.Populate.{
  populate_state, populate_aws, populate_aws_pool, populate_tags, populate_security_groups,
  populate_http_tokens, populate_root_volume, populate_tuning_configs, populate_autoscaling,
  populate_labels, populate_status, populate_kubelet_configs, populate_version, is_repaired,
}
use terraform_provider_ocm.HcpMachinePool.Update.{update}
use terraform_provider_ocm.HcpMachinePool.Update.Laws.{update_hcp-AllSent}
use terraform_provider_ocm.HcpMachinePool.Create.{
  create, do_create, await_cluster, create_in, create_new, after_earlier, add_built,
}
use terraform_provider_ocm.HcpMachinePool.Create.Laws.{create_hcp-AllCreating, create_hcp_reports}

abbrev pool : NodePool
pool = record (new_node_pool "blue") {
  replicas = some (pos 3);
  subnet = some "s1";
  kubelet_configs = some ("k1" ∷ []);
  version = some (record { id = some "openshift-v4.14.0"; channel_group = some "stable" });
}

abbrev server : Server
server = record {
  wait_for_cluster = λ h id. some cluster;
  on_get_cluster = λ h id. success cluster;
  on_list_pools = λ h id. success 2;
  on_get_pool = λ h cid pid. success pool;
  on_delete_pool = λ h cid pid. success tt;
  on_add_pool = λ h cid b. success b;
  on_update_pool = λ h cid pid b. success b;
}

abbrev is_empty_range : NodePoolAutoscaling → Bool
is_empty_range a = not (is_some a.min_replica || is_some a.max_replica)

abbrev env : Env ℕ
env = record {
  framework = framework;
  server = server;
  is_empty = is_empty_range;
  build = λ b. some b;
  disk_size_ok = λ size. true;
  create_version_id = λ version channel_group. version;
  upgrades = λ h. Upgrades.env;
  upgrade_fuel = 1;
}

abbrev fixed : AutoScaling
fixed = record { enabled = known false; min_replicas = null; max_replicas = null }

abbrev ranged : AutoScaling
ranged = record { enabled = known true; min_replicas = known (pos 2); max_replicas = known (pos 4) }

abbrev aws : AwsNodePool
aws = record new_aws_node_pool { instance_type = known "m5.xlarge" }

abbrev state : HcpMachinePoolState
state = record {
  id = known "blue";
  name = known "blue";
  cluster = known "c1";
  replicas = known (pos 3);
  auto_scaling = some fixed;
  taints = none;
  labels = null;
  availability_zone = null;
  subnet_id = known "s1";
  version = known "4.14.0";
  current_version = known "4.14.0";
  upgrade_acks_for = null;
  node_pool_status = null;
  aws_node_pool = some aws;
  tuning_configs = null;
  kubelet_configs = null;
  auto_repair = known true;
  ignore_deletion_error = null;
}

abbrev plan : HcpMachinePoolState
plan = record state { replicas = known (pos 5) }

-- A plan that gives both a range and a number of replicas.
abbrev both_plan : HcpMachinePoolState
both_plan = record plan { auto_scaling = some ranged }

sees : SeesFields is_empty_range
sees = λ a n e. rw e (or_true (is_some a.min_replica))
  where
    or_true : (b : Bool) → not (b || true) ≡ false
    or_true true = refl
    or_true false = refl

builds : Builds env
builds = λ b p e. cc

standard_names :
    (is_standard_name (codes "worker") ≡ true)
    × (is_standard_name (codes "workers-12") ≡ true)
    × (is_standard_name (codes "workers-") ≡ false)
    × (is_standard_name (codes "workerss") ≡ false)
unfolding is_standard_name after_runes after_worker is_numbered
standard_names = (refl, refl, refl, refl)

blue-other : is_standard_name (codes "blue") ≡ false
unfolding is_standard_name after_runes
blue-other = refl

update_hcp-AllSent_example : Adds (IsSent env state plan) [] (update env state plan []).1
update_hcp-AllSent_example = update_hcp-AllSent env sees builds state plan []

create_hcp-AllCreating_example : Adds (IsCreating env plan) [] (create env plan []).1
create_hcp-AllCreating_example = create_hcp-AllCreating env builds plan [] sees

abbrev created : HcpMachinePoolState
created = record both_plan {
  availability_zone = known "";
  aws_node_pool = some (record aws { ec2_metadata_http_tokens = known "optional" });
}

creates : (create env both_plan []).0.state ≡ saved created
unfolding create do_create await_cluster matches_name is_standard_name after_runes create_in
    create_new start_builder default_http_tokens build_aws optional_map tags_or_return
    security_groups_of root_volume_of tags_of_plan set_subnet scale get_autoscaling check_when
    both_given after_earlier add_built set_plain taints_of_plan set_tuning_configs set_version send
    populate_state populate_aws populate_aws_pool populate_tags populate_security_groups
    populate_http_tokens populate_root_volume populate_tuning_configs populate_autoscaling
    populate_labels populate_status populate_kubelet_configs populate_version is_repaired
    set_or_keep taints_state optional_int64 is_string_attribute_unknown_or_empty trim_prefix
    bool_with_true_default is_lower ends_well is_lower_or_digit or_return string_list_to_array
creates = refl

create_hcp_reports_example :
    has_error (create env both_plan []).0.diagnostics
    ≡ gives_both both_plan.auto_scaling (has_value both_plan.replicas)
create_hcp_reports_example =
    create_hcp_reports env builds both_plan created [] sees blue-other creates
