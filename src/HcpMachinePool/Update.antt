-- ===== src/HcpMachinePool/Update.antt =====
-- adjustInitialStateToPlan, doUpdate and Update of
-- provider/machinepool/hcp/machine_pool_resource.go.
pub mod Body
pub mod Laws
use terraform_provider_ocm.Prelude.{
  String, Bool, true, false, not, ◌||◌, ◌==◌, Option, none, some, List, [], ◌∷◌, ◌++◌, map,
  if◌then◌else◌, Result, ok, err, int_eq, list_eq,
}
use terraform_provider_ocm.Common.Attribute.{
  Value, has_value, value_eq, value_string, TfList, TfMap, map_elements,
  is_string_attribute_unknown_or_empty,
}
use terraform_provider_ocm.Common.Framework.{string_list_to_array}
use terraform_provider_ocm.Common.Patch.{
  should_patch_string, should_patch_bool, should_patch_map, should_patch_list, string_value_eq,
  map_eq,
}
use terraform_provider_ocm.Common.Response.{Diagnostic, error, Response, save}
use terraform_provider_ocm.Sdk.{Cluster}
use terraform_provider_ocm.Handler.{
  pure, lift, send, ◌>>=◌, ◌>>◌, fail, fail_when, body_or_fail, built_or_fail, none_or_fail,
  ok_or_fail, respond,
}
use terraform_provider_ocm.MachinePool.Scaling.{should_patch_taints}
use terraform_provider_ocm.MachinePool.Update.{plan_taints, label, not_exactly_one}
use terraform_provider_ocm.Upgrade.{UpgradeError}
use terraform_provider_ocm.Upgrade.Hosted.{Versioned}
use terraform_provider_ocm.Upgrade.Hosted.NodePool.{upgrade_machine_pool_if_needed}
use terraform_provider_ocm.HcpMachinePool.State.{
  AutoScaling, AwsNodePool, HcpMachinePoolState, new_auto_scaling, new_aws_node_pool, new_aws_pool,
  NodePool, new_node_pool,
}
use terraform_provider_ocm.HcpMachinePool.Scaling.{get_autoscaling, set_replicas}
use terraform_provider_ocm.HcpMachinePool.Populate.{or_new, populate_state}
use terraform_provider_ocm.HcpMachinePool.Read.{fetch_cluster}
use terraform_provider_ocm.HcpMachinePool.Immutable.{validate_no_immutable_att_change}
use terraform_provider_ocm.HcpMachinePool.Server.{
  get_pool, update_pool, upgrade_request, History, Env, Action, nil_pointer,
}

-- The plan's two objects are read.
unfoldable pub adjusted :
    AutoScaling → AwsNodePool → HcpMachinePoolState → HcpMachinePoolState → HcpMachinePoolState
adjusted scaling aws state plan = record state {
  auto_scaling =
      some (record (or_new new_auto_scaling state.auto_scaling) { enabled = scaling.enabled });
  replicas = plan.replicas;
  node_pool_status = plan.node_pool_status;
  version = plan.version;
  ignore_deletion_error = plan.ignore_deletion_error;
  aws_node_pool =
      let old = or_new new_aws_node_pool state.aws_node_pool in
      some (if has_value aws.tags then record old { tags = aws.tags } else old);
  tuning_configs =
      if has_value plan.tuning_configs then plan.tuning_configs else state.tuning_configs;
  kubelet_configs =
      if value_string plan.kubelet_configs == ""
      then plan.kubelet_configs
      else state.kubelet_configs;
}

unfoldable pub adjust_initial_state_to_plan :
    HcpMachinePoolState → HcpMachinePoolState → Action HcpMachinePoolState
adjust_initial_state_to_plan state plan = elim plan.auto_scaling [
  | none ↦ nil_pointer
  | some scaling ↦ elim plan.aws_node_pool [
    | none ↦ nil_pointer
    | some aws ↦ pure (adjusted scaling aws state plan)
  ]
]

-- The instance type is always sent where both have AWS settings.
unfoldable pub set_instance_type : Option AwsNodePool → Option AwsNodePool → NodePool → NodePool
set_instance_type none plan builder = builder
set_instance_type (some state) none builder = builder
set_instance_type (some state) (some plan) builder = record builder {
  aws_node_pool =
      some (record new_aws_pool { instance_type = some (value_string plan.instance_type) });
}

unfoldable pub set_patches : HcpMachinePoolState → HcpMachinePoolState → NodePool → NodePool
unfolding should_patch_string should_patch_bool
set_patches state plan builder = record builder {
  subnet = should_patch_string state.subnet_id plan.subnet_id;
  auto_repair = should_patch_bool state.auto_repair plan.auto_repair;
}

unfoldable pub set_labels : TfMap × Bool → NodePool → NodePool
set_labels (patch, true) builder = record builder { labels = some (map label (map_elements patch)) }
set_labels (patch, false) builder = builder

unfoldable pub set_taints : HcpMachinePoolState → HcpMachinePoolState → NodePool → NodePool
set_taints state plan builder =
    if should_patch_taints state.taints plan.taints
    then record builder { taints = some (plan_taints plan.taints) }
    else builder

-- What of the rest of the plan differs.
unfoldable pub patch_sets : HcpMachinePoolState → HcpMachinePoolState → NodePool → NodePool
unfolding set_patches set_labels set_taints
patch_sets state plan builder =
    set_taints state plan
      (set_labels (should_patch_map state.labels plan.labels) (set_patches state plan builder))

-- A plan without kubelet configs sends none.
unfoldable pub set_kubelet_configs : HcpMachinePoolState → HcpMachinePoolState → NodePool → NodePool
set_kubelet_configs state plan builder =
    if is_string_attribute_unknown_or_empty plan.kubelet_configs
    then record builder { kubelet_configs = some [] }
    else elim (should_patch_string state.kubelet_configs plan.kubelet_configs) [
      | none ↦ builder
      | some patch ↦ record builder { kubelet_configs = some (patch ∷ []) }
    ]

-- A list that was not converted leaves the builder.
abbrev pub with_tuning_configs : Option (List String) → NodePool → NodePool
with_tuning_configs none builder = builder
with_tuning_configs (some configs) builder = record builder { tuning_configs = some configs }

-- What of the state an upgrade reads and writes.
abbrev pub versioned : HcpMachinePoolState → Versioned
versioned state = record {
  version = state.version;
  current_version = state.current_version;
  upgrade_acks_for = state.upgrade_acks_for;
}

unfoldable pub start_body : HcpMachinePoolState → HcpMachinePoolState → NodePool
unfolding set_instance_type
start_body state plan =
    set_instance_type state.aws_node_pool plan.aws_node_pool (new_node_pool (value_string state.id))

-- The upgrade's error is a diagnostic.
unfoldable pub after_upgrade :
    HcpMachinePoolState
    → Result UpgradeError Versioned
    → Result (List Diagnostic) HcpMachinePoolState
after_upgrade state (err why) = err (error "Can't upgrade machine pool" "" ∷ [])
after_upgrade state (ok v) =
    ok (record state { version = v.version; upgrade_acks_for = v.upgrade_acks_for })

module _ {V : Type 0} (env : Env V) where
  open env use {framework, server, is_empty, build, upgrades, upgrade_fuel}

  -- The upgrade's requests follow those before it.
  unfoldable pub upgrade_pool :
      HcpMachinePoolState → HcpMachinePoolState → Action HcpMachinePoolState
  upgrade_pool state plan h =
      let (r, sent) =
        upgrade_machine_pool_if_needed (upgrades h) upgrade_fuel (value_string state.cluster)
          (value_string state.id) (versioned state) (versioned plan) [] in
      (after_upgrade state r, map upgrade_request sent ++ h)

  unfoldable pub add_tuning_configs : TfList × Bool → NodePool → Action NodePool
  add_tuning_configs (patch, false) builder = pure builder
  add_tuning_configs (patch, true) builder = do
    configs ← lift (
        ok_or_fail (string_list_to_array framework patch) "Cannot update machine pool"
          "tuning configs")
    pure (with_tuning_configs configs builder)

  -- Exactly one of autoscaling and a count.
  unfoldable pub scale : HcpMachinePoolState → NodePool → Option AutoScaling → Action NodePool
  scale plan builder none = nil_pointer
  scale plan builder (some scaling) = do
    scaled ← lift (
        ok_or_fail (get_autoscaling is_empty scaling (set_replicas plan builder))
          "Cannot update machine pool" "autoscaling")
    fail_when (not_exactly_one scaled.0 (has_value plan.replicas)) "Cannot update machine pool"
        "replicas"
    pure scaled.1

  unfoldable pub update_body : HcpMachinePoolState → HcpMachinePoolState → Action NodePool
  update_body state plan = do
    scaled ← scale plan (start_body state plan) plan.auto_scaling
    tuned ←
        add_tuning_configs (should_patch_list state.tuning_configs plan.tuning_configs)
          (patch_sets state plan scaled)
    pure (set_kubelet_configs state plan tuned)

  unfoldable pub send_update :
      HcpMachinePoolState → HcpMachinePoolState → Cluster → Action HcpMachinePoolState
  send_update before plan cluster = do
    let cid = value_string before.cluster
    let pid = value_string before.id
    found ← send (get_pool cid pid) (λ h. server.on_get_pool h cid pid)
    existing ← body_or_fail found "Cannot find machine pool" ""
    state ← upgrade_pool before plan
    builder ← update_body state plan
    body ← built_or_fail (build builder) "Cannot update machine pool" "build"
    reply ← send (update_pool cid pid body) (λ h. server.on_update_pool h cid pid body)
    object ← body_or_fail reply "Failed to update machine pool" ""
    start ← adjust_initial_state_to_plan state plan
    lift (
        ok_or_fail (populate_state framework object start cluster)
          "Can't populate machine pool state" "")

  -- Without a cluster the update ends here, with the state as it was.
  unfoldable pub with_cluster :
      HcpMachinePoolState → HcpMachinePoolState → Option Cluster → Action HcpMachinePoolState
  with_cluster state plan none = pure state
  with_cluster state plan (some cluster) = send_update state plan cluster

  unfoldable pub do_update : HcpMachinePoolState → HcpMachinePoolState → Action HcpMachinePoolState
  do_update state plan = do
    none_or_fail (validate_no_immutable_att_change state plan)
    cluster ← fetch_cluster env plan.cluster
    with_cluster state plan cluster

  unfoldable pub update :
      HcpMachinePoolState → HcpMachinePoolState → History → Response HcpMachinePoolState × History
  update state plan h =
      let (r, h') = (do_update state plan >>= λ s. pure (save s)) h in (respond r, h')
