-- ===== src/Autoscaler/State.antt =====
-- The state of provider/autoscaler/hcp/state.go, and its way to the API's object and back.
use terraform_provider_ocm.Prelude.{
  String, Bool, true, false, ◌&&◌, ◌==◌, Option, none, some, if◌then◌else◌, ℤ, int_eq,
}
use terraform_provider_ocm.Common.Attribute.{
  Value, null, known, is_null, value_int64, value_string, value_eq, emptiable_string_to_string_type,
}

pub record AutoscalerResourceLimits : Type 0 where
  pub max_nodes_total : Value ℤ

pub record ClusterAutoscalerState : Type 0 where
  pub cluster : Value String
  pub max_pod_grace_period : Value ℤ
  pub pod_priority_threshold : Value ℤ
  pub max_node_provision_time : Value String
  pub resource_limits : Option AutoscalerResourceLimits  -- `nil` is `none`

-- The API's object, each field `none` where it was not set. The limits hold the number of nodes.
pub record ClusterAutoscaler : Type 0 where
  pub max_pod_grace_period : Option ℤ
  pub pod_priority_threshold : Option ℤ
  pub max_node_provision_time : Option String
  pub resource_limits : Option (Option ℤ)

-- `&ClusterAutoscalerState{}`
abbrev pub new_state : ClusterAutoscalerState
new_state = record {
  cluster = null;
  max_pod_grace_period = null;
  pod_priority_threshold = null;
  max_node_provision_time = null;
  resource_limits = none;
}

-- A number that was set, or null.
unfoldable pub int_or_null : Option ℤ → Value ℤ
int_or_null none = null
int_or_null (some n) = known n

-- `object.MaxNodeProvisionTime()`: the zero value where it was not set.
abbrev pub time_of : Option String → String
time_of none = ""
time_of (some time) = time

unfoldable pub populate_limits :
    Option (Option ℤ) → Option AutoscalerResourceLimits → Option AutoscalerResourceLimits
populate_limits none old = old
populate_limits (some total) old = some (record { max_nodes_total = int_or_null total })

unfoldable pub populate_autoscaler_state :
    ClusterAutoscaler → String → ClusterAutoscalerState → ClusterAutoscalerState
populate_autoscaler_state object cluster_id state = record {
  cluster = known cluster_id;
  max_pod_grace_period = int_or_null object.max_pod_grace_period;
  pod_priority_threshold = int_or_null object.pod_priority_threshold;
  max_node_provision_time =
      emptiable_string_to_string_type (time_of object.max_node_provision_time);
  resource_limits = populate_limits object.resource_limits state.resource_limits;
}

-- A value that is not null is set, an unknown one as the zero value.
unfoldable pub int_if_set : Value ℤ → Option ℤ
int_if_set v = if is_null v then none else some (value_int64 v)

unfoldable pub string_if_set : Value String → Option String
string_if_set v = if is_null v then none else some (value_string v)

unfoldable pub limits_object : Option AutoscalerResourceLimits → Option (Option ℤ)
limits_object none = none
limits_object (some limits) = some (int_if_set limits.max_nodes_total)

unfoldable pub cluster_autoscaler_state_to_object : ClusterAutoscalerState → ClusterAutoscaler
cluster_autoscaler_state_to_object state = record {
  max_pod_grace_period = int_if_set state.max_pod_grace_period;
  pod_priority_threshold = int_if_set state.pod_priority_threshold;
  max_node_provision_time = string_if_set state.max_node_provision_time;
  resource_limits = limits_object state.resource_limits;
}

-- `reflect.DeepEqual` of two limits and of two states.
unfoldable pub limits_eq : Option AutoscalerResourceLimits → Option AutoscalerResourceLimits → Bool
limits_eq none none = true
limits_eq none (some b) = false
limits_eq (some a) none = false
limits_eq (some a) (some b) = value_eq int_eq a.max_nodes_total b.max_nodes_total

unfoldable pub state_eq : ClusterAutoscalerState → ClusterAutoscalerState → Bool
state_eq a b =
    value_eq ◌==◌ a.cluster b.cluster
    && value_eq int_eq a.max_pod_grace_period b.max_pod_grace_period
    && value_eq int_eq a.pod_priority_threshold b.pod_priority_threshold
    && value_eq ◌==◌ a.max_node_provision_time b.max_node_provision_time
    && limits_eq a.resource_limits b.resource_limits
