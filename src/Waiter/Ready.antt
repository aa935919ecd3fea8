-- ===== src/Waiter/Ready.antt =====
-- Waiting for a cluster to be ready: provider/common/cluster_waiter.go, WaitForClusterToBeReady.

use terraform_provider_ocm.Prelude.{
  ℕ, suc, zero, ◌+◌, ◌≤◌, ◌<◌, ◌≡◌, ◌≢◌, ◌⊎◌, refl, true, none, some, arith, Bool-cases, nat_eq,
  String, inl, inr,
}
use terraform_provider_ocm.Sdk.{
  ClusterState, ready, error, uninstalling, other, Cluster, Reply, success, failure, not_found,
}
use terraform_provider_ocm.Waiter.{
  Poll, Stops, cluster_not_found, will_not_become_ready, polling_failed, not_ready, out_of_fuel,
  WaitResult, poll_cluster_state, Ended, found, gave_up, cut_off, is_final, is_ready, first_look,
  at_once, conclude, start_ready_wait, wait_for_cluster_to_be_ready,
}
use terraform_provider_ocm.Waiter.Loop.{EndsWell, poll_loop-EndsWell, poll_cluster_state-Answers}

-- What a wait that reports no error has found.
abbrev pub HasReadyCluster : WaitResult → Type 0
HasReadyCluster r = (c : Cluster) × (r.cluster ≡ some c) × (c.state ≡ ready)

is_ready-state : (c : Cluster) → is_ready c ≡ true → c.state ≡ ready
is_ready-state c h = ground arith

conclude-HasReadyCluster :
    (end : Ended)
    → (conclude is_ready not_ready end).error ≡ none
    → HasReadyCluster (conclude is_ready not_ready end)
unfolding conclude
conclude-HasReadyCluster (found c polls sleeps) h = (c, refl, ground arith)
conclude-HasReadyCluster (gave_up polls sleeps) h = cc
conclude-HasReadyCluster cut_off h = cc

first_look-elim :
    (P : WaitResult → Type 0) (c : Cluster) (later : WaitResult)
    → (c.state ≡ ready → P (at_once (some c) none))
    → P (at_once (some c) (some will_not_become_ready))
    → P later
    → (s : ClusterState) → c.state ≡ s
    → P (first_look c later s)
unfolding first_look
first_look-elim P c later is_ready_now never waits ready e = is_ready_now e
first_look-elim P c later is_ready_now never waits error e = never
first_look-elim P c later is_ready_now never waits uninstalling e = never
first_look-elim P c later is_ready_now never waits (other s) e = waits

-- What holds of each way to end holds of the wait.
wait_ready-elim :
    (P : WaitResult → Type 0) (poll : Poll) (fuel : ℕ)
    → P (at_once none (some cluster_not_found))
    → ((c : Cluster) → c.state ≡ ready → P (at_once (some c) none))
    → ((c : Cluster) → P (at_once (some c) (some will_not_become_ready)))
    → P (start_ready_wait poll fuel)
    → (reply : Reply Cluster) → P (wait_for_cluster_to_be_ready poll fuel reply)
unfolding wait_for_cluster_to_be_ready
wait_ready-elim P poll fuel missing is_ready_now never waits (failure status) =
    elim (Bool-cases (nat_eq status not_found)) [
      | inl yes_404 ↦ rw yes_404 missing
      | inr no_404 ↦ rw no_404 waits
    ]
wait_ready-elim P poll fuel missing is_ready_now never waits (success c) =
    first_look-elim P c _ (is_ready_now c) (never c) waits c.state refl

-- A wait that reports no error hands back a cluster, and that cluster is ready: whatever the first
-- request and the polls answered.
pub wait_ready-success :
    (poll : Poll) (fuel : ℕ) (reply : Reply Cluster)
    → (wait_for_cluster_to_be_ready poll fuel reply).error ≡ none
    → HasReadyCluster (wait_for_cluster_to_be_ready poll fuel reply)
unfolding start_ready_wait
wait_ready-success poll fuel =
    wait_ready-elim (λ r. r.error ≡ none → HasReadyCluster r) poll fuel (λ h. cc)
      (λ c is_ready_now h. (c, refl, is_ready_now)) (λ c h. cc) (conclude-HasReadyCluster _)

-- The end of a wait: which error it may report, and how often it has polled and slept.
pub record IsBounded (r : WaitResult) : Type 0 where
  pub in_fuel : r.error ≢ some out_of_fuel
  pub polls_le : r.polls ≤ 3
  pub sleeps_le : r.sleeps ≤ 2
  pub no_cluster :
      r.cluster ≡ none → (r.error ≡ some cluster_not_found) ⊎ (r.error ≡ some polling_failed)

conclude-IsBounded :
    (end : Ended) → EndsWell is_final 3 0 0 end → IsBounded (conclude is_ready not_ready end)
unfolding conclude
conclude-IsBounded (found c polls sleeps) h = ground arith
conclude-IsBounded (gave_up polls sleeps) h = ground arith
conclude-IsBounded cut_off h = absurd h

-- With a client that polls as documented a wait ends: fuel 3 is enough, it polls at most three
-- times and sleeps at most twice, and it hands back no cluster only with an error that says that
-- the cluster was not found or that the polling failed.
pub wait_ready-IsBounded :
    (poll : Poll) (fuel : ℕ) (reply : Reply Cluster)
    → Stops poll
    → 3 ≤ fuel
    → IsBounded (wait_for_cluster_to_be_ready poll fuel reply)
unfolding start_ready_wait
wait_ready-IsBounded poll fuel reply stops enough =
    wait_ready-elim IsBounded poll fuel (ground arith) (λ c e. ground arith) (λ c. ground arith)
      (conclude-IsBounded _ (
        poll_loop-EndsWell is_final (poll_cluster_state poll)
          (poll_cluster_state-Answers poll stops) fuel 3 0 0 (omega arith) enough))
      reply

-- The result of a wait whose polls found this cluster at last.
abbrev pub found_after : ℕ → Cluster → WaitResult
found_after failures c = record {
  cluster = some c;
  error = none;
  polls = failures + 1;
  sleeps = failures;
}

-- One or two polls that fail do not fail the wait: if the next poll sees the cluster ready, the
-- wait succeeds with it, after one sleep for each failure.
pub wait_ready_tolerates :
    (poll : Poll) (fuel failures : ℕ) (c : Cluster) (s : String) (first : Cluster)
    → failures ≤ 2
    → 3 ≤ fuel
    → first.state ≡ other s
    → ((n : ℕ) → n < failures → poll_cluster_state poll n ≡ none)
    → poll_cluster_state poll failures ≡ some (some c)
    → c.state ≡ ready
    → wait_for_cluster_to_be_ready poll fuel (success first) ≡ found_after failures c
unfolding wait_for_cluster_to_be_ready start_ready_wait
wait_ready_tolerates poll (suc (suc (suc fuel))) zero c s first few enough waiting failed seen
      good =
    rw (waiting, first_look) (ground arith)
wait_ready_tolerates poll (suc (suc (suc fuel))) (suc zero) c s first few enough waiting failed seen
      good =
    rw (waiting, first_look) (ground (arith, failed 0 (omega arith)))
wait_ready_tolerates poll (suc (suc (suc fuel))) (suc (suc zero)) c s first few enough waiting
      failed seen good =
    rw (waiting, first_look) (ground (arith, failed 0 (omega arith), failed 1 (omega arith)))
wait_ready_tolerates poll fuel failures c s first few enough waiting failed seen good =
    absurd (omega arith)
