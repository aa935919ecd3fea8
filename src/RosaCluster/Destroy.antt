-- ===== src/RosaCluster/Destroy.antt =====
-- Delete, retryClusterNotFoundWithTimeout and waitTillClusterIsNotFoundWithTimeout of
-- provider/clusterrosa/classic/cluster_rosa_classic_resource.go, and word for word of
-- provider/clusterrosa/hcp/resource.go.
pub mod Laws
use terraform_provider_ocm.Prelude.{
  ℕ, zero, suc, String, Bool, true, false, ◌&&◌, Option, none, some, List, [], ◌∷◌, ◌++◌, ◌*◌,
  if◌then◌else◌, ok, err, ℤ, pos, negsuc, leb_ℤ, ltb, ◌%◌, ◌-◌,
}
use terraform_provider_ocm.Common.Attribute.{
  Value, has_value, value_string, value_bool, value_int64,
}
use terraform_provider_ocm.Common.Response.{Diagnostic, error, warning, Response, removed}
use terraform_provider_ocm.Sdk.{Reply}
use terraform_provider_ocm.Handler.{Handling, pure, send, ◌>>=◌, ◌>>◌, body_or_fail, respond}

-- The attributes of a cluster's state that its deletion reads.
pub record DestroyState : Type 0 where
  pub id : Value String
  pub disable_waiting_in_destroy : Value Bool
  pub destroy_timeout : Value ℤ

-- How a poll for the status 404 ends: with the error of a cluster that is not found, with another
-- error, or with none.
pub data Polled : Type 0 where
  not_found poll_failed no_error : Polled

-- What a deletion does.
pub data Event : Type 0 where
  delete_cluster : String → Event
  poll : String → ℤ → Event  -- with this timeout, in nanoseconds
  sleep : ℕ → Event  -- in minutes

-- The newest event first.
abbrev pub History : Type 0
History = List Event

pub record Api : Type 0 where
  pub on_delete : History → String → Reply (Unit {0})
  pub on_poll : History → String → ℤ → Polled

abbrev pub Action {ℓ} : Type ℓ → Type ℓ
Action A = Handling Event A

-- `rosa.MaxClusterWaitTimeoutInMinutes`, and `rosa.MaxMachinePoolWaitTimeoutInMinutes` too.
abbrev pub max_wait_timeout : ℤ
max_wait_timeout = pos 60

-- The int64 with the lowest 64 bits of this number.
unfoldable pub to_int64 : ℕ → ℤ
to_int64 n =
    let bits = n % 18446744073709551616 in
    if ltb bits 9223372036854775808 then pos bits else negsuc (18446744073709551615 - bits)

-- `time.Duration(timeout) * time.Minute`, which wraps around.
unfoldable pub timeout_in_minutes : ℤ → ℤ
unfolding to_int64
timeout_in_minutes (pos n) = to_int64 (n * 60000000000)
timeout_in_minutes (negsuc n) =
    to_int64 (18446744073709551616 - (suc n * 60000000000) % 18446744073709551616)

-- Whether the cluster was found to be gone; `none` is an error.
unfoldable pub gone_after : Polled → Option Bool
gone_after not_found = some true
gone_after poll_failed = none
gone_after no_error = some false

-- The timeout, and the warning where the state has none that can be used.
unfoldable pub timeout_of : Value ℤ → List Diagnostic × ℤ
timeout_of destroy_timeout =
    if has_value destroy_timeout
    then (if leb_ℤ (value_int64 destroy_timeout) (pos 0)
        then (
          warning "Can't poll cluster state with a non-positive timeout" "" ∷ [],
          max_wait_timeout,
        )
        else ([], value_int64 destroy_timeout))
    else ([], max_wait_timeout)

unfoldable pub is_waiting_disabled : DestroyState → Bool
is_waiting_disabled state =
    has_value state.disable_waiting_in_destroy && value_bool state.disable_waiting_in_destroy

-- The diagnostics once the polling is over.
unfoldable pub after_polls : List Diagnostic → Option Bool → Action (List Diagnostic)
after_polls warnings none h = (err (warnings ++ (error "Can't poll cluster state" "" ∷ [])), h)
after_polls warnings (some true) h = (ok warnings, h)
after_polls warnings (some false) h =
    (ok (warnings ++ (warning "Cluster wasn't deleted yet" "" ∷ [])), h)

module _ (api : Api) where
  unfoldable pub wait_till_cluster_is_not_found_with_timeout : String → ℤ → Action (Option Bool)
  wait_till_cluster_is_not_found_with_timeout id timeout = do
    let duration = timeout_in_minutes timeout
    outcome ← send (poll id duration) (λ h. api.on_poll h id duration)
    pure (gone_after outcome)

  unfoldable pub time_sleep : ℕ → Action (Unit {0})
  time_sleep minutes h = (ok tt, sleep minutes ∷ h)

  -- An answer ends the polling.
  unfoldable pub or_again : Option Bool → Action (Option Bool) → Action (Option Bool)
  or_again (some gone) again = pure (some gone)
  or_again none again = again

  unfoldable pub retry_cluster_not_found_with_timeout : ℕ → ℕ → String → ℤ → Action (Option Bool)
  retry_cluster_not_found_with_timeout zero pause id timeout =
      wait_till_cluster_is_not_found_with_timeout id timeout
  retry_cluster_not_found_with_timeout (suc zero) pause id timeout =
      wait_till_cluster_is_not_found_with_timeout id timeout
  retry_cluster_not_found_with_timeout (suc (suc n)) pause id timeout = do
    let again = retry_cluster_not_found_with_timeout (suc n) (2 * pause) id timeout
    gone ← wait_till_cluster_is_not_found_with_timeout id timeout
    or_again gone (time_sleep pause >> again)

  unfoldable pub await_removal : DestroyState → Action (List Diagnostic)
  await_removal state = do
    let (warnings, timeout) = timeout_of state.destroy_timeout
    gone ← retry_cluster_not_found_with_timeout 3 1 (value_string state.id) timeout
    after_polls warnings gone

  unfoldable pub do_delete : DestroyState → Action (Response DestroyState)
  do_delete state = do
    let id = value_string state.id
    reply ← send (delete_cluster id) (λ h. api.on_delete h id)
    deleted ← body_or_fail reply "Can't delete cluster" ""
    diagnostics ← if is_waiting_disabled state then pure [] else await_removal state
    pure (record { diagnostics = diagnostics; state = removed })

  unfoldable pub delete : DestroyState → History → Response DestroyState × History
  delete state h = let (r, h') = do_delete state h in (respond r, h')
