-- ===== src/Autoscaler/Handlers/Laws.antt =====
-- What a create and an update of an autoscaler ask of the API, and what the state keeps of it.
use terraform_provider_ocm.Prelude.{
  String, true, false, ◌==◌, ◌≡◌, ◌≢◌, refl, ◌∙◌, ap, Option, none, some, ◌∷◌, eq_refl, int_eq,
  int_eq_iff, eq_iff, ℤ, arith,
}
use terraform_provider_ocm.Common.Attribute.{
  Value, null, unknown, known, is_unknown, has_value, value_string, value_eq,
  emptiable_string_to_string_type,
}
use terraform_provider_ocm.Common.Response.{save}
use terraform_provider_ocm.Sdk.{Cluster, success}
use terraform_provider_ocm.Handler.{send}
use terraform_provider_ocm.Autoscaler.State.{
  AutoscalerResourceLimits, ClusterAutoscalerState, new_state, ClusterAutoscaler,
  populate_autoscaler_state, populate_limits, int_or_null, time_of, int_if_set, string_if_set,
  limits_object, cluster_autoscaler_state_to_object, limits_eq, state_eq,
}
use terraform_provider_ocm.Autoscaler.Handlers.{
  get_autoscaler, update_autoscaler_request, validate_no_immutable_att_change, send_autoscaler,
  do_update, update, History, Env, state_or_copy, update_autoscaler, create_in, do_create, create,
}

int_value_eq_refl : (v : Value ℤ) → value_eq int_eq v v ≡ true
int_value_eq_refl null = refl
int_value_eq_refl unknown = refl
int_value_eq_refl (known n) = (int_eq_iff n n).1 refl

string_value_eq_refl : (v : Value String) → value_eq ◌==◌ v v ≡ true
string_value_eq_refl null = refl
string_value_eq_refl unknown = refl
string_value_eq_refl (known s) = eq_refl s

limits_eq_refl : (l : Option AutoscalerResourceLimits) → limits_eq l l ≡ true
unfolding limits_eq
limits_eq_refl none = refl
limits_eq_refl (some l) = int_value_eq_refl l.max_nodes_total

-- A copy of the plan for its own cluster is the plan.
copy-eq :
    (plan : ClusterAutoscalerState) (cluster_id : String)
    → plan.cluster ≡ known cluster_id
    → state_eq (state_or_copy none plan (value_string plan.cluster)) plan ≡ true
unfolding state_eq state_or_copy
copy-eq plan cluster_id is_known =
    let same : value_eq ◌==◌ (known (value_string plan.cluster)) plan.cluster ≡ true =
      rw is_known (eq_refl cluster_id) in
    rw
      (
        same,
        int_value_eq_refl plan.max_pod_grace_period,
        int_value_eq_refl plan.pod_priority_threshold,
        string_value_eq_refl plan.max_node_provision_time,
        limits_eq_refl plan.resource_limits,
      )
      refl

-- Once the cluster is ready, a create saves the plan as it is and sends no request: nothing that the
-- plan sets reaches the API.
pub autoscaler-create_sends_nothing :
    (env : Env) (plan : ClusterAutoscalerState) (cluster_id : String) (cluster : Cluster)
    (h : History)
    → plan.cluster ≡ known cluster_id
    → env.wait_for_cluster h cluster_id ≡ some cluster
    → create env plan h ≡ (save plan, h)
unfolding create do_create create_in update_autoscaler
autoscaler-create_sends_nothing env plan cluster_id cluster h is_known waited =
    let ready : env.wait_for_cluster h (value_string plan.cluster) ≡ some cluster =
      ap (λ id. env.wait_for_cluster h (value_string id)) is_known ∙ waited in
    rw (ready, copy-eq plan cluster_id is_known) refl

-- A plan without unknown values, and whose time is not the empty text.
abbrev pub IsSettled {ℓ} : {A : Type ℓ} → Value A → Type 0
IsSettled v = is_unknown v ≡ false

abbrev pub LimitsSettled : Option AutoscalerResourceLimits → Type 0
LimitsSettled none = Unit
LimitsSettled (some limits) = IsSettled limits.max_nodes_total

pub record Settled (plan : ClusterAutoscalerState) : Type 0 where
  pub cluster : has_value plan.cluster ≡ true
  pub max_pod_grace_period : IsSettled plan.max_pod_grace_period
  pub pod_priority_threshold : IsSettled plan.pod_priority_threshold
  pub max_node_provision_time : IsSettled plan.max_node_provision_time
  pub time : plan.max_node_provision_time ≢ known ""
  pub limits : LimitsSettled plan.resource_limits

int_or_null-int_if_set : (v : Value ℤ) → IsSettled v → int_or_null (int_if_set v) ≡ v
unfolding int_or_null int_if_set
int_or_null-int_if_set null settled = refl
int_or_null-int_if_set unknown settled = cc
int_or_null-int_if_set (known n) settled = refl

time-string_if_set :
    (v : Value String)
    → IsSettled v
    → v ≢ known ""
    → emptiable_string_to_string_type (time_of (string_if_set v)) ≡ v
unfolding string_if_set emptiable_string_to_string_type
time-string_if_set null settled other = refl
time-string_if_set unknown settled other = cc
time-string_if_set (known s) settled other = ground (arith, eq_iff s "")

limits-populate_limits :
    (limits : Option AutoscalerResourceLimits)
    → LimitsSettled limits
    → populate_limits (limits_object limits) none ≡ limits
unfolding populate_limits limits_object
limits-populate_limits none settled = refl
limits-populate_limits (some l) settled =
    ap (λ v. some (record { max_nodes_total = v }))
      (int_or_null-int_if_set l.max_nodes_total settled)

known-value_string : (v : Value String) → has_value v ≡ true → known (value_string v) ≡ v
known-value_string null given = cc
known-value_string unknown given = cc
known-value_string (known s) given = refl

populated :
    (plan : ClusterAutoscalerState)
    → Settled plan
    → populate_autoscaler_state
        (cluster_autoscaler_state_to_object plan)
        (value_string plan.cluster)
        new_state
      ≡ plan
unfolding populate_autoscaler_state cluster_autoscaler_state_to_object
populated plan settled =
    rw
      (
        known-value_string plan.cluster settled.cluster,
        int_or_null-int_if_set plan.max_pod_grace_period settled.max_pod_grace_period,
        int_or_null-int_if_set plan.pod_priority_threshold settled.pod_priority_threshold,
        time-string_if_set plan.max_node_provision_time settled.max_node_provision_time
            settled.time,
        limits-populate_limits plan.resource_limits settled.limits,
      )
      refl

-- Where the plan names the state's cluster, the API has its autoscaler, and it accepts the object
-- that it is sent and answers with it, an update asks for the autoscaler, sends the plan's object and
-- saves the plan: nothing of a plan without unknown values and empty texts is lost on the way.
pub autoscaler-update_saves :
    (env : Env) (state plan : ClusterAutoscalerState) (existing : ClusterAutoscaler) (h : History)
    → Settled plan
    → state.cluster ≡ plan.cluster
    → env.build (cluster_autoscaler_state_to_object plan)
      ≡ some (cluster_autoscaler_state_to_object plan)
    → env.on_get h (value_string plan.cluster) ≡ success existing
    → env.on_update
        (get_autoscaler (value_string plan.cluster) ∷ h)
        (value_string plan.cluster)
        (cluster_autoscaler_state_to_object plan)
      ≡ success (cluster_autoscaler_state_to_object plan)
    → update env state plan h ≡ (
      save plan,
      update_autoscaler_request
            (value_string plan.cluster)
            (cluster_autoscaler_state_to_object plan)
          ∷ get_autoscaler (value_string plan.cluster)
          ∷ h,
    )
unfolding update do_update send send_autoscaler validate_no_immutable_att_change
autoscaler-update_saves env state plan existing h settled same builds found answered =
    let kept : value_eq ◌==◌ state.cluster plan.cluster ≡ true =
      ap (λ v. value_eq ◌==◌ v plan.cluster) same ∙ string_value_eq_refl plan.cluster in
    rw (kept, found, builds, answered, populated plan settled) refl
