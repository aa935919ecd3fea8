-- ===== src/Autoscaler/Handlers.antt =====
-- The handlers of provider/autoscaler/hcp/resource.go.
pub mod Laws
use terraform_provider_ocm.Prelude.{
  String, Bool, true, false, not, ◌==◌, Option, none, some, List, [], ◌∷◌, if◌then◌else◌, Result,
  ok, err, nat_eq,
}
use terraform_provider_ocm.Common.Attribute.{Value, known, value_eq, value_string}
use terraform_provider_ocm.Common.Response.{
  Diagnostic, error, warning, Response, save, remove, removed,
}
use terraform_provider_ocm.Sdk.{Cluster, Reply, success, failure, not_found}
use terraform_provider_ocm.Client.{Act}
use terraform_provider_ocm.Handler.{
  Handling, pure, send, ◌>>=◌, ◌>>◌, fail, body_or_fail, built_or_fail, none_or_fail, respond,
}
use terraform_provider_ocm.Autoscaler.State.{
  ClusterAutoscalerState, new_state, ClusterAutoscaler, populate_autoscaler_state,
  cluster_autoscaler_state_to_object, state_eq,
}

-- The identifier is the cluster's.
pub data Request : Type 0 where
  get_autoscaler : String → Request
  update_autoscaler_request : String → ClusterAutoscaler → Request

-- The newest request first.
abbrev pub History : Type 0
History = List Request

pub record Env : Type 0 where
  -- `ClusterWait.WaitForClusterToBeReady`; `none` is an error.
  pub wait_for_cluster : History → String → Option Cluster
  pub on_get : History → String → Reply ClusterAutoscaler
  pub on_update : History → String → ClusterAutoscaler → Reply ClusterAutoscaler
  pub build : ClusterAutoscaler → Option ClusterAutoscaler  -- `Build`; `none` is an error

abbrev pub Action {ℓ} : Type ℓ → Type ℓ
Action A = Handling Request A

unfoldable pub validate_no_immutable_att_change :
    ClusterAutoscalerState → ClusterAutoscalerState → List Diagnostic
validate_no_immutable_att_change state plan =
    if not (value_eq ◌==◌ state.cluster plan.cluster)
    then error "Attribute value cannot be changed" "cluster" ∷ []
    else []

-- The state, or the plan's attributes in a new one.
unfoldable pub state_or_copy :
    Option ClusterAutoscalerState → ClusterAutoscalerState → String → ClusterAutoscalerState
state_or_copy (some state) plan cluster_id = state
state_or_copy none plan cluster_id = record plan { cluster = known cluster_id }

-- The answer to a request for the autoscaler. Every other error than that there is none is one.
unfoldable pub read_reply :
    Reply ClusterAutoscaler → ClusterAutoscalerState → Action (Response ClusterAutoscalerState)
read_reply (success object) state =
    pure (save (populate_autoscaler_state object (value_string state.cluster) state))
read_reply (failure status) state =
    if nat_eq status not_found then pure remove else fail "Failed getting cluster autoscaler" ""

module _ (env : Env) where
  open env use {wait_for_cluster, on_get, on_update, build}

  -- The request and its answer, under the summary of the handler's error.
  unfoldable pub send_autoscaler :
      String → String → ClusterAutoscalerState → Action ClusterAutoscaler
  send_autoscaler summary cluster_id state = do
    body ← built_or_fail (build (cluster_autoscaler_state_to_object state)) summary "build"
    reply ← send (update_autoscaler_request cluster_id body) (λ h. on_update h cluster_id body)
    body_or_fail reply summary ""

  -- The state that the answer is copied into is given up.
  unfoldable pub update_autoscaler :
      ClusterAutoscalerState → Option ClusterAutoscalerState → String → Action (Unit {0})
  update_autoscaler plan old cluster_id =
      let state = state_or_copy old plan cluster_id in
      if not (state_eq state plan)
      then (send_autoscaler "Failed building cluster autoscaler state" cluster_id state
          >>= λ object. pure tt)
      else pure tt

  -- The wait sends no request of its own for the autoscaler.
  unfoldable pub create_in :
      Option Cluster → ClusterAutoscalerState → Action (Response ClusterAutoscalerState)
  create_in none plan = fail "Cannot poll cluster state" ""
  create_in (some cluster) plan = do
    update_autoscaler plan none (value_string plan.cluster)
    pure (save plan)

  unfoldable pub do_create : ClusterAutoscalerState → Action (Response ClusterAutoscalerState)
  do_create plan h = create_in (wait_for_cluster h (value_string plan.cluster)) plan h

  unfoldable pub create :
      ClusterAutoscalerState → History → Response ClusterAutoscalerState × History
  create plan h = let (r, h') = do_create plan h in (respond r, h')

  unfoldable pub do_read : ClusterAutoscalerState → Action (Response ClusterAutoscalerState)
  do_read state = do
    let cluster_id = value_string state.cluster
    reply ← send (get_autoscaler cluster_id) (λ h. on_get h cluster_id)
    read_reply reply state

  unfoldable pub read : ClusterAutoscalerState → History → Response ClusterAutoscalerState × History
  read state h = let (r, h') = do_read state h in (respond r, h')

  unfoldable pub do_update :
      ClusterAutoscalerState → ClusterAutoscalerState → Action (Response ClusterAutoscalerState)
  do_update state plan = do
    none_or_fail (validate_no_immutable_att_change state plan)
    let cluster_id = value_string plan.cluster
    found ← send (get_autoscaler cluster_id) (λ h. on_get h cluster_id)
    existing ← body_or_fail found "Failed getting cluster autoscaler" ""
    object ← send_autoscaler "Failed updating cluster autoscaler" cluster_id plan
    pure (save (populate_autoscaler_state object cluster_id new_state))

  unfoldable pub update :
      ClusterAutoscalerState
      → ClusterAutoscalerState
      → History
      → Response ClusterAutoscalerState × History
  update state plan h = let (r, h') = do_update state plan h in (respond r, h')

-- Nothing is asked of the API.
unfoldable pub delete : ClusterAutoscalerState → Response ClusterAutoscalerState
delete state = record {
  diagnostics = warning "Cannot delete Hosted CP cluster autoscaler" "" ∷ [];
  state = removed;
}
