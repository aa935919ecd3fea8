-- ===== src/Waiter/Resource.antt =====
-- provider/clusterwaiter/cluster_waiter_resource.go: the resource that waits for a cluster.
use terraform_provider_ocm.Prelude.{
  ℕ, String, ◌≡◌, ◌≢◌, ◌⊎◌, ap, refl, Bool, true, false, Option, none, some, [], ◌∷◌, ◌||◌, arith,
  inl, inr, if◌then◌else◌, ℤ, pos,
}
use terraform_provider_ocm.Common.Attribute.{
  Value, known, is_null, is_unknown, value_int64, value_string,
}
use terraform_provider_ocm.Common.Response.{
  Diagnostic, Saved, saved, removed, unchanged, Response, save, remove, refuse,
}
use terraform_provider_ocm.Common.Response
use terraform_provider_ocm.Sdk.{Cluster, Reply}
use terraform_provider_ocm.Waiter.{
  Poll, WaitError, WaitResult, is_ready, wait_for_cluster_to_be_ready,
}
use terraform_provider_ocm.Waiter.Ready.{wait_ready-success}

pub record ClusterWaiterState : Type 0 where
  pub cluster : Value String
  pub ready : Value Bool
  pub timeout : Value ℤ

-- `defaultTimeoutInMinutes`
abbrev pub default_timeout_in_minutes : ℤ
default_timeout_in_minutes = pos 60

-- The state of a nil cluster is the empty text.
abbrev pub found_is_ready : Option Cluster → Bool
found_is_ready none = false
found_is_ready (some c) = is_ready c

abbrev pub polling_timeout : ClusterWaiterState → ℤ
polling_timeout state =
    if is_unknown state.timeout || is_null state.timeout
    then default_timeout_in_minutes
    else value_int64 state.timeout

-- The state and the error after a wait.
unfoldable pub after_wait :
    ClusterWaiterState → Option Cluster → Option WaitError → ClusterWaiterState × Option WaitError
after_wait state cluster (some e) = (record state { ready = known false }, some e)
after_wait state cluster none = (record state { ready = known (found_is_ready cluster) }, none)

-- The state is saved after an error too: `startPolling` never hands back a nil state.
unfoldable pub created : ClusterWaiterState × Option WaitError → Response ClusterWaiterState
created (state, none) = save state
created (state, some e) = record {
  diagnostics = Response.error "Waiting for cluster creation finished with error" "" ∷ [];
  state = saved state;
}

-- `r.clusterWait.WaitForClusterToBeReady`, on the cluster's identifier and the timeout.
module _ (wait : String → ℤ → WaitResult) where
  unfoldable pub start_polling : ClusterWaiterState → ClusterWaiterState × Option WaitError
  unfolding after_wait
  start_polling state =
      let r = wait (value_string state.cluster) (polling_timeout state) in
      after_wait state r.cluster r.error

  unfoldable pub create : ClusterWaiterState → Response ClusterWaiterState
  unfolding start_polling created
  create plan = created (start_polling plan)

  pub update : ClusterWaiterState → Response ClusterWaiterState
  unfolding start_polling
  update plan =
      let (state, e) = start_polling plan in
      elim e [
        | none ↦ save state
        | some why ↦ refuse "Can't poll cluster state (update resource)" ""
      ]

pub delete : ClusterWaiterState → Response ClusterWaiterState
delete state = remove

-- `Read` does nothing.
pub read : ClusterWaiterState → Response ClusterWaiterState
read state = record { diagnostics = []; state = unchanged }

abbrev pub SavedReady : Saved ClusterWaiterState → Bool → Type 0
SavedReady st b = (s : ClusterWaiterState) × (st ≡ saved s) × (s.ready ≡ known b)

-- What a create may end with.
abbrev pub TellsReadiness : Response ClusterWaiterState → Type 0
TellsReadiness r =
    ((r.diagnostics ≡ []) × SavedReady r.state true)
    ⊎ ((r.diagnostics ≢ []) × SavedReady r.state false)

after_wait-TellsReadiness :
    (state : ClusterWaiterState) (cluster : Option Cluster) (e : Option WaitError)
    → (e ≡ none → found_is_ready cluster ≡ true)
    → TellsReadiness (created (after_wait state cluster e))
unfolding created after_wait
after_wait-TellsReadiness state cluster none h = inl (refl, (_, refl, ap known (h refl)))
after_wait-TellsReadiness state cluster (some e) h = inr (cc, (_, refl, refl))

module _ (poll : ℤ → Poll) (fuel : ℕ) (get : String → Reply Cluster) where
  abbrev pub wait_by_polling : String → ℤ → WaitResult
  wait_by_polling id timeout = wait_for_cluster_to_be_ready (poll timeout) fuel (get id)

  found_ready :
      (id : String) (timeout : ℤ)
      → (wait_by_polling id timeout).error ≡ none
      → found_is_ready (wait_by_polling id timeout).cluster ≡ true
  found_ready id timeout h =
      let (c, found, is_it) = wait_ready-success (poll timeout) fuel (get id) h in
      rw found (ground arith)

  -- With the waiter's own wait, a create always saves a state; the state says that the cluster is
  -- ready if no error is reported, and that it is not ready if one is.
  pub create-TellsReadiness :
      (plan : ClusterWaiterState) → TellsReadiness (create wait_by_polling plan)
  unfolding create
  create-TellsReadiness plan =
      after_wait-TellsReadiness plan _ _
        (found_ready (value_string plan.cluster) (polling_timeout plan))
