-- ===== src/Waiter/Compute.antt =====
-- Waiting for the compute nodes: provider/common/cluster_waiter.go, WaitForStdComputeNodesToBeReady.
use terraform_provider_ocm.Prelude.{
  ℕ, ◌≤◌, ◌≡◌, ◌≢◌, ◌⊎◌, ◌↔◌, nat_eq, refl, none, some, arith, Bool-cases, int_eq, int_eq_iff, inl,
  inr, sym,
}
use terraform_provider_ocm.Sdk.{Cluster, Reply, success, failure, not_found}
use terraform_provider_ocm.Waiter.{
  Poll, Stops, polling_failed, WaitResult, poll_cluster_current_compute, Ended, found, gave_up,
  cut_off, has_desired_compute, compute_not_reached, conclude, start_compute_wait,
  wait_for_std_compute_nodes_to_be_ready,
}
use terraform_provider_ocm.Waiter.Loop.{
  EndsWell, poll_loop-EndsWell, poll_cluster_current_compute-Answers,
}

-- A wait that has ended as it should: all nodes are there, or three polls failed, with a sleep before
-- each of them but the first, and the error says so.
abbrev pub IsDone : WaitResult → Type 0
IsDone r =
    ((c : Cluster) × (r.cluster ≡ some c) × (r.error ≡ none) × (c.current_compute ≡ c.compute))
    ⊎ ((r.cluster ≡ none) × (r.error ≡ some polling_failed) × (r.polls ≡ 3) × (r.sleeps ≡ 2))

conclude-IsDone :
    (end : Ended)
    → EndsWell has_desired_compute 3 0 0 end
    → IsDone (conclude has_desired_compute compute_not_reached end)
unfolding conclude
conclude-IsDone (found c polls sleeps) h =
    inl (c, refl, ground arith, (int_eq_iff c.current_compute c.compute).0 h.0)
conclude-IsDone (gave_up polls sleeps) h = inr (refl, refl, omega arith, omega arith)
conclude-IsDone cut_off h = absurd h

-- If the first request finds the cluster, a client that polls as documented makes the wait end
-- with a cluster that has all its compute nodes and no error, or with no cluster and the error of a
-- failed polling, after three polls and two sleeps. No other error is reported: neither that the
-- nodes were not reached in time nor that the cluster was not found.
pub wait_compute-IsDone :
    (poll : Poll) (fuel : ℕ) (first : Cluster)
    → Stops poll
    → 3 ≤ fuel
    → IsDone (wait_for_std_compute_nodes_to_be_ready poll fuel (success first))
unfolding wait_for_std_compute_nodes_to_be_ready
wait_compute-IsDone poll fuel first stops enough =
    elim (Bool-cases (int_eq first.compute first.current_compute)) [
      | inl there ↦
          rw there (
            inl (first, refl, refl, sym ((int_eq_iff first.compute first.current_compute).0 there)))
      | inr waiting ↦ rw waiting (
          unfold start_compute_wait in
          conclude-IsDone _ (
            poll_loop-EndsWell has_desired_compute (poll_cluster_current_compute poll)
              (poll_cluster_current_compute-Answers poll stops) fuel 3 0 0 (omega arith) enough))
    ]

-- With a client that polls as documented the wait ends with no cluster and no error exactly if the
-- first request fails with another status than 404.
pub wait_compute-silent_iff :
    (poll : Poll) (fuel : ℕ) (reply : Reply Cluster)
    → Stops poll
    → 3 ≤ fuel
    → let r = wait_for_std_compute_nodes_to_be_ready poll fuel reply in
      ((r.cluster ≡ none) × (r.error ≡ none))
      ↔ ((status : ℕ) × (reply ≡ failure status) × (status ≢ not_found))
wait_compute-silent_iff poll fuel (success c) stops enough = (
  (λ (no_cluster, no_error). elim (wait_compute-IsDone poll fuel c stops enough) [
    | inl (c', is, fine, all) ↦ cc
    | inr (none_found, failed, three, two) ↦ cc
  ]),
  (λ (status, failed, other). cc),
)
wait_compute-silent_iff poll fuel (failure status) stops enough =
    unfold wait_for_std_compute_nodes_to_be_ready in
    elim (Bool-cases (nat_eq status not_found)) [
      | inl missing ↦ rw missing ((λ (a, b). cc), (λ (s, e, other). absurd (ground arith)))
      | inr other ↦ rw other ((λ u. (status, refl, ground arith)), (λ u. (refl, refl)))
    ]
