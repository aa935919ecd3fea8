-- ===== src/Autoscaler/Tests.antt =====
-- A cluster with an autoscaler, and the theorems at it.
use terraform_provider_ocm.Prelude.{◌≡◌, refl, none, some, [], ◌∷◌, pos}
use terraform_provider_ocm.Common.Attribute.{null, known}
use terraform_provider_ocm.Common.Response.{save}
use terraform_provider_ocm.Sdk.{success}
use terraform_provider_ocm.Samples.Framework.{cluster}
use terraform_provider_ocm.Autoscaler.State.{
  ClusterAutoscalerState, ClusterAutoscaler, cluster_autoscaler_state_to_object,
}
use terraform_provider_ocm.Autoscaler.Handlers.{
  get_autoscaler, update_autoscaler_request, Env, create, update,
}
use terraform_provider_ocm.Autoscaler.Handlers.Laws.{
  Settled, autoscaler-create_sends_nothing, autoscaler-update_saves,
}

abbrev existing : ClusterAutoscaler
existing = record {
  max_pod_grace_period = some (pos 600);
  pod_priority_threshold = none;
  max_node_provision_time = none;
  resource_limits = none;
}

abbrev env : Env
env = record {
  wait_for_cluster = λ h id. some cluster;
  on_get = λ h id. success existing;
  on_update = λ h id object. success object;
  build = λ object. some object;
}

abbrev state : ClusterAutoscalerState
state = record {
  cluster = known "c1";
  max_pod_grace_period = known (pos 600);
  pod_priority_threshold = null;
  max_node_provision_time = null;
  resource_limits = none;
}

abbrev plan : ClusterAutoscalerState
plan = record state {
  max_node_provision_time = known "15m";
  resource_limits = some (record { max_nodes_total = known (pos 12) });
}

autoscaler-create_sends_nothing_example : create env plan [] ≡ (save plan, [])
autoscaler-create_sends_nothing_example =
    autoscaler-create_sends_nothing env plan "c1" cluster [] refl refl

plan-Settled : Settled plan
plan-Settled = record {
  cluster = refl;
  max_pod_grace_period = refl;
  pod_priority_threshold = refl;
  max_node_provision_time = refl;
  time = λ e. cc;
  limits = refl;
}

autoscaler-update_saves_example : update env state plan [] ≡ (
  save plan,
  update_autoscaler_request "c1" (cluster_autoscaler_state_to_object plan)
      ∷ get_autoscaler "c1"
      ∷ [],
)
autoscaler-update_saves_example =
    autoscaler-update_saves env state plan existing [] plan-Settled refl refl refl refl
