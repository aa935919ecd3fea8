-- ===== src/Waiter/Tests.antt =====
-- Waits of a client that fails its first poll, and the theorems at these waits.

use terraform_provider_ocm.Prelude.{
  ℕ, zero, suc, String, ◌≡◌, ◌<◌, refl, true, false, none, some, [], ◌∷◌, if◌then◌else◌, ℤ, pos,
  arith, Bool-cases, inl, inr, ◌↔◌, ◌≢◌,
}
use terraform_provider_ocm.Common.Attribute.{known, null}
use terraform_provider_ocm.Common.Response.{saved}
use terraform_provider_ocm.Sdk.{Cluster, ClusterState, ready, other, Reply, success, failure}
use terraform_provider_ocm.Waiter.{
  Poll, Stops, cluster_not_found, polling_failed, poll_loop, poll_cluster_state,
  wait_for_cluster_to_be_ready, wait_for_std_compute_nodes_to_be_ready, start_ready_wait,
  first_look, last_seen, conclude, validate_timeout,
}
use terraform_provider_ocm.Waiter.Ready.{
  wait_ready_tolerates, IsBounded, wait_ready-success, wait_ready-IsBounded, HasReadyCluster,
}
use terraform_provider_ocm.Waiter.Compute.{IsDone, wait_compute-IsDone, wait_compute-silent_iff}
use terraform_provider_ocm.Waiter.Resource.{
  ClusterWaiterState, create, start_polling, after_wait, created, wait_by_polling,
}

abbrev cluster_in : ClusterState → ℤ → Cluster
cluster_in state current = record {
  id = "c1";
  channel_group = "stable";
  state = state;
  compute = pos 2;
  current_compute = current;
  multi_az = false;
  availability_zones = "us-east-1a" ∷ [];
  version = "4.14.0";
  aws_tags = none;
}

abbrev installing : Cluster
installing = cluster_in (other "installing") (pos 0)

abbrev installed : Cluster
installed = cluster_in ready (pos 2)

-- The first poll fails, and the others see the cluster become ready.
abbrev flaky : Poll
flaky zero p = none
flaky (suc n) p = if p installed then some (installing ∷ installed ∷ []) else none

flaky-Stops : Stops flaky
flaky-Stops zero p seen h = cc
flaky-Stops (suc n) p seen h = elim (Bool-cases (p installed)) [
  | inl holds ↦
      let e : seen ≡ installing ∷ installed ∷ [] = ground arith in (installed, rw e refl, holds)
  | inr fails ↦ ground arith
]

abbrev broken : Poll
broken n p = none

becomes_ready :
    wait_for_cluster_to_be_ready flaky 3 (success installing)
    ≡ record { cluster = some installed; error = none; polls = 2; sleeps = 1 }
unfolding wait_for_cluster_to_be_ready start_ready_wait first_look conclude poll_loop
    poll_cluster_state last_seen
becomes_ready = refl

gives_up :
    wait_for_cluster_to_be_ready broken 3 (failure 500)
    ≡ record { cluster = none; error = some polling_failed; polls = 3; sleeps = 2 }
unfolding wait_for_cluster_to_be_ready start_ready_wait first_look conclude poll_loop
    poll_cluster_state last_seen
gives_up = refl

is_gone :
    wait_for_cluster_to_be_ready broken 3 (failure 404)
    ≡ record { cluster = none; error = some cluster_not_found; polls = 0; sleeps = 0 }
unfolding wait_for_cluster_to_be_ready
is_gone = refl

refuses_no_time : validate_timeout (some (pos 0)) (pos 60) ≡ none
unfolding validate_timeout
refuses_no_time = refl

wait_ready-IsBounded_example : IsBounded (wait_for_cluster_to_be_ready flaky 3 (success installing))
wait_ready-IsBounded_example =
    wait_ready-IsBounded flaky 3 (success installing) flaky-Stops (omega arith)

wait_compute-IsDone_example :
    IsDone (wait_for_std_compute_nodes_to_be_ready flaky 3 (success installing))
wait_compute-IsDone_example = wait_compute-IsDone flaky 3 installing flaky-Stops (omega arith)

wait_compute-silent_iff_example :
    let r = wait_for_std_compute_nodes_to_be_ready flaky 3 (failure 500) in
    ((r.cluster ≡ none) × (r.error ≡ none))
    ↔ ((status : ℕ) × (◌≡◌ {A = Reply Cluster} (failure 500) (failure status)) × (status ≢ 404))
wait_compute-silent_iff_example =
    wait_compute-silent_iff flaky 3 (failure 500) flaky-Stops (omega arith)

becomes_ready_without_error :
    (wait_for_cluster_to_be_ready flaky 3 (success installing)).error ≡ none
unfolding wait_for_cluster_to_be_ready start_ready_wait first_look conclude poll_loop
    poll_cluster_state last_seen
becomes_ready_without_error = refl

wait_ready-success_example :
    HasReadyCluster (wait_for_cluster_to_be_ready flaky 3 (success installing))
wait_ready-success_example =
    wait_ready-success flaky 3 (success installing) becomes_ready_without_error

flaky_fails_once : (n : ℕ) → n < 1 → poll_cluster_state flaky n ≡ none
unfolding poll_cluster_state last_seen
flaky_fails_once zero h = refl
flaky_fails_once (suc n) h = absurd (omega arith)

flaky_then_sees_it : poll_cluster_state flaky 1 ≡ some (some installed)
unfolding poll_cluster_state last_seen
flaky_then_sees_it = refl

abbrev waiting_for_demo : ClusterWaiterState
waiting_for_demo = record { cluster = known "demo"; ready = null; timeout = null }

abbrev get_demo : String → Reply Cluster
get_demo id = success installing

saves_ready :
    (create (wait_by_polling (λ timeout. flaky) 3 get_demo) waiting_for_demo).state
    ≡ saved (record waiting_for_demo { ready = known true })
unfolding create start_polling after_wait created wait_for_cluster_to_be_ready start_ready_wait
    first_look conclude poll_loop poll_cluster_state last_seen
saves_ready = refl

wait_ready_tolerates_example :
    wait_for_cluster_to_be_ready flaky 3 (success installing)
    ≡ record { cluster = some installed; error = none; polls = 2; sleeps = 1 }
wait_ready_tolerates_example =
    wait_ready_tolerates flaky 3 1 installed "installing" installing (omega arith) (omega arith)
      refl flaky_fails_once flaky_then_sees_it refl
