-- ===== src/Waiter.antt =====
-- provider/common/cluster_waiter.go: waiting for a cluster. The client's `Poll` is a parameter; the
-- number of polls and of sleeps of a wait are part of its result.
pub mod Loop
pub mod Ready
pub mod Compute
pub mod Resource
mod Tests
use mathlib.Core.List.{get_last?}
use terraform_provider_ocm.Prelude.{
  ℕ, zero, suc, ◌+◌, ◌-◌, ◌≡◌, Bool, true, false, Option, none, some, List, if◌then◌else◌, nat_eq,
  int_eq, Result, ok, err, ℤ, pos, leb_ℤ,
}
use terraform_provider_ocm.Sdk.{
  ClusterState, ready, error, uninstalling, other, Cluster, Reply, success, failure, is_missing,
  body,
}

-- One `Poll().Interval(..).Predicate(p).StartContext(..)` for each attempt, which are counted from
-- 0: `none` where it ends with an error, such as the timeout, or else the bodies that the
-- predicate was called on.
abbrev pub Poll : Type 0
Poll = ℕ → (Cluster → Bool) → Option (List Cluster)

-- What the client documents: a poll ends without error only once the predicate has held.
abbrev pub Stops : Poll → Type 0
Stops poll =
    (n : ℕ) (p : Cluster → Bool) (seen : List Cluster)
    → poll n p ≡ some seen
    → (c : Cluster) × (get_last? seen ≡ some c) × (p c ≡ true)

pub data WaitError : Type 0 where
  cluster_not_found will_not_become_ready polling_failed not_ready compute_not_reached : WaitError
  out_of_fuel : WaitError  -- not in the source: the model's loop was cut off

pub record WaitResult : Type 0 where
  pub cluster : Option Cluster
  pub error : Option WaitError
  pub polls : ℕ
  pub sleeps : ℕ

abbrev pub is_final : Cluster → Bool
is_final c = elim c.state [ ready ↦ true | error ↦ true | uninstalling ↦ true | other s ↦ false ]

abbrev pub has_desired_compute : Cluster → Bool
has_desired_compute c = int_eq c.current_compute c.compute

-- The predicate writes each body to `object`, which is nil if it was never called.
pub last_seen : Option (List Cluster) → Option (Option Cluster)
last_seen none = none
last_seen (some seen) = some (get_last? seen)

module _ (poll : Poll) where
  pub poll_cluster_state : ℕ → Option (Option Cluster)
  unfolding last_seen
  poll_cluster_state n = last_seen (poll n is_final)

  pub poll_cluster_current_compute : ℕ → Option (Option Cluster)
  unfolding last_seen
  poll_cluster_current_compute n = last_seen (poll n has_desired_compute)

-- How the loop `for cluster == nil` ended, after how many polls and sleeps.
pub data Ended : Type 0 where
  found : Cluster → ℕ → ℕ → Ended
  gave_up : ℕ → ℕ → Ended
  cut_off : Ended

abbrev pub backoff_attempts : ℕ
backoff_attempts = 3

-- The loop both waits share, on fuel: the attempts left, and the polls and sleeps so far.
pub poll_loop : (ℕ → Option (Option Cluster)) → ℕ → ℕ → ℕ → ℕ → Ended
poll_loop polled zero attempts polls sleeps = cut_off
poll_loop polled (suc fuel) attempts polls sleeps = elim (polled polls) [
  | none ↦
      let again = poll_loop polled fuel (attempts - 1) (polls + 1) (sleeps + 1) in
      if nat_eq (attempts - 1) 0 then gave_up (polls + 1) sleeps else again
  | some object ↦ elim object [
    | none ↦ poll_loop polled fuel attempts (polls + 1) sleeps
    | some c ↦ found c (polls + 1) sleeps
  ]
]

abbrev at_once : Option Cluster → Option WaitError → WaitResult
at_once c e = record { cluster = c; error = e; polls = 0; sleeps = 0 }

-- The end of either wait, by the test that it makes of the cluster found.
pub conclude : (Cluster → Bool) → WaitError → Ended → WaitResult
conclude good bad (found c polls sleeps) = record {
  cluster = some c;
  error = if good c then none else some bad;
  polls = polls;
  sleeps = sleeps;
}
conclude good bad (gave_up polls sleeps) = record {
  cluster = none;
  error = some polling_failed;
  polls = polls;
  sleeps = sleeps;
}
conclude good bad cut_off = at_once none (some out_of_fuel)

abbrev pub is_ready : Cluster → Bool
is_ready c = elim c.state [ ready ↦ true | _ ↦ false ]

-- What the first look at the state decides, before any poll.
pub first_look : Cluster → WaitResult → ClusterState → WaitResult
first_look c later ready = at_once (some c) none
first_look c later error = at_once (some c) (some will_not_become_ready)
first_look c later uninstalling = at_once (some c) (some will_not_become_ready)
first_look c later (other s) = later

-- `Nodes().Compute()` and `Status().CurrentCompute()`, which are 0 for a nil cluster.
abbrev pub nodes_compute : Option Cluster → ℤ
nodes_compute none = pos 0
nodes_compute (some c) = c.compute

abbrev pub status_current_compute : Option Cluster → ℤ
status_current_compute none = pos 0
status_current_compute (some c) = c.current_compute

module _ (poll : Poll) (fuel : ℕ) where
  pub start_ready_wait : WaitResult
  unfolding poll_cluster_state poll_loop conclude
  start_ready_wait =
      conclude is_ready not_ready (poll_loop (poll_cluster_state poll) fuel backoff_attempts 0 0)

  -- The state of a nil body is the empty text, so an error other than 404 leads on to the polls.
  pub wait_for_cluster_to_be_ready : Reply Cluster → WaitResult
  unfolding start_ready_wait first_look
  wait_for_cluster_to_be_ready (failure status) =
      if is_missing {A = Cluster} (failure status)
      then at_once none (some cluster_not_found)
      else start_ready_wait
  wait_for_cluster_to_be_ready (success c) = first_look c start_ready_wait c.state

  pub start_compute_wait : WaitResult
  unfolding poll_cluster_current_compute poll_loop conclude
  start_compute_wait =
      conclude has_desired_compute compute_not_reached
        (poll_loop (poll_cluster_current_compute poll) fuel backoff_attempts 0 0)

  -- An error other than 404 leads on with a nil body.
  pub wait_for_std_compute_nodes_to_be_ready : Reply Cluster → WaitResult
  unfolding start_compute_wait
  wait_for_std_compute_nodes_to_be_ready reply =
      if is_missing reply
      then at_once none (some cluster_not_found)
      else if int_eq (nodes_compute (body reply)) (status_current_compute (body reply))
      then at_once (body reply) none
      else start_compute_wait

-- `ValidateTimeout`; the error is its one message.
pub validate_timeout : Option ℤ → ℤ → Option ℤ
validate_timeout none default_timeout = some default_timeout
validate_timeout (some timeout) default_timeout =
    if leb_ℤ timeout (pos 0) then none else some timeout
