-- ===== src/MachinePool/Update.antt =====
-- validateNoImmutableAttChange, adjustInitialStateToPlan, doUpdate and Update of
-- provider/machinepool/classic/machine_pool_resource.go.
pub mod Laws
pub mod Immutable
use mathlib.Core.Bool.{beq}
use terraform_provider_ocm.Prelude.{
  String, Bool, true, false, not, ◌&&◌, ◌||◌, ◌==◌, Option, none, some, List, [], ◌∷◌, ◌++◌, map,
  if◌then◌else◌, Result, ok, err, ℤ, pos, int_eq, list_eq, Dict, is_some,
}
use terraform_provider_ocm.Common.Attribute.{
  Value, known, is_unknown, has_value, value_eq, value_string, value_int64, TfMap, map_elements,
}
use terraform_provider_ocm.Common.Patch.{
  should_patch_int, should_patch_string, should_patch_map, string_value_eq, map_eq,
}
use terraform_provider_ocm.Common.Response.{Diagnostic, error, Response, save}
use terraform_provider_ocm.Sdk.{Cluster, Reply, success, failure}
use terraform_provider_ocm.MachinePool.State.{
  float_eq, Taints, MachinePoolState, Taint, MachinePool, new_machine_pool,
}
use terraform_provider_ocm.MachinePool.Scaling.{
  get_autoscaling, should_patch_taints, taint_builders,
}
use terraform_provider_ocm.MachinePool.Populate.{populate_state}
use terraform_provider_ocm.MachinePool.Read.{fetch_cluster}
use terraform_provider_ocm.MachinePool.Server.{
  Request, get_pool, update_pool, History, Server, Env, Action, pure, fail, lift, send, and_then,
  ◌>>=◌, ◌>>◌, fail_when, body_or_fail, ok_or_fail, respond,
}

-- `validateStateAndPlanEquals`, by whether the plan is unknown and whether the two are equal.
unfoldable pub changed : Bool → Bool → String → List Diagnostic
changed plan_unknown equal attr_name =
    if plan_unknown || equal then [] else error "Attribute value cannot be changed" attr_name ∷ []

unfoldable pub attribute_changed {ℓ} :
    {A : Type ℓ} → (A → A → Bool) → Value A → Value A → String → List Diagnostic
unfolding changed
attribute_changed eq state_attr plan_attr =
    changed (is_unknown plan_attr) (value_eq eq state_attr plan_attr)

unfoldable pub validate_no_immutable_att_change :
    MachinePoolState → MachinePoolState → List Diagnostic
validate_no_immutable_att_change state plan =
    attribute_changed ◌==◌ state.cluster plan.cluster "cluster"
    ++ (attribute_changed ◌==◌ state.name plan.name "name"
        ++ (attribute_changed ◌==◌ state.machine_type plan.machine_type "machine_type"
            ++ (attribute_changed beq state.use_spot_instances plan.use_spot_instances
                  "use_spot_instances"
                ++ (attribute_changed float_eq state.max_spot_price plan.max_spot_price
                      "max_spot_price"
                    ++ (attribute_changed beq state.multi_availability_zone
                          plan.multi_availability_zone "multi_availability_zone"
                        ++ (attribute_changed ◌==◌ state.availability_zone plan.availability_zone
                              "availability_zone"
                            ++ (attribute_changed ◌==◌ state.subnet_id plan.subnet_id "subnet_id"
                                ++ (attribute_changed int_eq state.disk_size plan.disk_size
                                      "disk_size"
                                    ++ (attribute_changed (list_eq string_value_eq)
                                          state.additional_security_group_ids
                                          plan.additional_security_group_ids
                                          "aws_additional_security_group_ids"
                                        ++ attribute_changed map_eq state.aws_tags plan.aws_tags
                                            "aws_tags")))))))))

unfoldable pub adjust_initial_state_to_plan : MachinePoolState → MachinePoolState → MachinePoolState
adjust_initial_state_to_plan state plan = record state {
  autoscaling_enabled = plan.autoscaling_enabled;
  replicas = plan.replicas;
  ignore_deletion_error = plan.ignore_deletion_error;
  aws_tags = if has_value plan.aws_tags then plan.aws_tags else state.aws_tags;
}

-- The replicas of a plan are set on the builder if they have a value.
abbrev pub set_replicas : MachinePoolState → MachinePool → MachinePool
set_replicas plan builder =
    if has_value plan.replicas
    then record builder { replicas = some (value_int64 plan.replicas) }
    else builder

-- The loops that make plain labels and taints of a plan's.
abbrev pub label : String × Value String → String × String
label (k, v) = (k, value_string v)

-- The taints of a nil list are an empty list of builders.
abbrev pub plan_taints : Option (List Taints) → List Taint
plan_taints none = []
plan_taints (some ts) = taint_builders ts

unfoldable pub set_labels : TfMap × Bool → MachinePool → MachinePool
set_labels (patch, true) builder = record builder { labels = some (map label (map_elements patch)) }
set_labels (patch, false) builder = builder

unfoldable pub set_taints : MachinePoolState → MachinePoolState → MachinePool → MachinePool
set_taints state plan builder =
    if should_patch_taints state.taints plan.taints
    then record builder { taints = some (plan_taints plan.taints) }
    else builder

-- The labels and taints that differ are patched.
unfoldable pub patch_sets : MachinePoolState → MachinePoolState → MachinePool → MachinePool
patch_sets state plan builder =
    set_taints state plan (set_labels (should_patch_map state.labels plan.labels) builder)

-- Both or neither of autoscaling and a count of replicas.
abbrev pub not_exactly_one : Bool → Bool → Bool
not_exactly_one a b = (a && b) || (not a && not b)

unfoldable pub built : Option MachinePool → Action MachinePool
built none = fail "Cannot update machine pool" "build"
built (some object) = pure object

unfoldable pub no_change_allowed : List Diagnostic → Action (Unit {0})
no_change_allowed [] h = (ok tt, h)
no_change_allowed (d ∷ ds) h = (err (d ∷ ds), h)

module _ (env : Env) where
  open env use {framework, server, is_empty, build}

  -- The body of the patch, or the diagnostic that stops the update before it is sent.
  unfoldable pub update_body : MachinePoolState → MachinePoolState → Action MachinePool
  update_body state plan = do
    fail_when (is_some (should_patch_string state.machine_type plan.machine_type))
        "Cannot update machine pool" "machine type"
    scaled ← lift (
        ok_or_fail
          (get_autoscaling is_empty plan
            (set_replicas plan (new_machine_pool (value_string state.id))))
          "Cannot update machine pool" "autoscaling")
    fail_when (not_exactly_one scaled.0 (has_value plan.replicas)) "Cannot update machine pool"
        "replicas"
    fail_when (is_some (should_patch_int state.disk_size plan.disk_size))
        "Cannot update machine pool" "disk size"
    pure (patch_sets state plan scaled.1)

  unfoldable pub send_update :
      MachinePoolState → MachinePoolState → Cluster → Action MachinePoolState
  send_update state plan cluster = do
    let cid = value_string state.cluster
    let pid = value_string state.id
    found ← send (get_pool cid pid) (λ h. server.on_get_pool h cid pid)
    existing ← body_or_fail found "Cannot find machine pool" ""
    builder ← update_body state plan
    body ← built (build builder)
    reply ← send (update_pool cid pid body) (λ h. server.on_update_pool h cid pid body)
    object ← body_or_fail reply "Failed to update machine pool" ""
    lift (
        ok_or_fail
          (populate_state framework object (adjust_initial_state_to_plan state plan) cluster)
          "Can't populate machine pool state" "")

  -- Without a cluster the update ends here, with the state as it was.
  unfoldable pub with_cluster :
      MachinePoolState → MachinePoolState → Option Cluster → Action MachinePoolState
  with_cluster state plan none = pure state
  with_cluster state plan (some cluster) = send_update state plan cluster

  -- The state to save, where no diagnostic was added.
  unfoldable pub do_update : MachinePoolState → MachinePoolState → Action MachinePoolState
  do_update state plan = do
    no_change_allowed (validate_no_immutable_att_change state plan)
    cluster ← fetch_cluster env plan.cluster
    with_cluster state plan cluster

  unfoldable pub update :
      MachinePoolState → MachinePoolState → History → Response MachinePoolState × History
  update state plan h =
      let (r, h') = (do_update state plan >>= λ s. pure (save s)) h in (respond r, h')
