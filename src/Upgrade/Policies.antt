-- ===== src/Upgrade/Policies.antt =====
-- GetScheduledUpgrades and CheckAndCancelUpgrades of classic/upgrade/cluster_upgrade.go.
pub mod Paging
pub mod Cancelling
use terraform_provider_ocm.Prelude.{
  ℕ, zero, suc, ◌+◌, String, Bool, true, false, ◌&&◌, not, ltb, Option, none, some, List, [], ◌∷◌,
  ◌++◌, if◌then◌else◌, Result, ok, err,
}
use terraform_provider_ocm.Client.Paging.{pages}
use terraform_provider_ocm.Client.{some_or_fail, fail_unless, pure, send, and_then, ◌>>=◌, ◌>>◌}
use terraform_provider_ocm.Upgrade.{
  PoliciesClient, PolicyState, delayed, started, pending, scheduled, other, Policy, ClusterUpgrade,
  Request, list_policies, get_policy_state, delete_policy, History, Env, UpgradeError, list_failed,
  state_failed, delete_failed, upgrade_version_not_parsed, in_progress, out_of_fuel, Action, fail,
  ten_minutes,
}

module _ {V : Type 0} (env : Env V) where
  open env use {semver, api, now}

  -- The pages of policies from this one on, on fuel.
  unfoldable pub list_pages : PoliciesClient → ℕ → ℕ → Action (List Policy)
  list_pages client =
      pages (list_policies client) (λ h page. api.on_list_policies h client page) list_failed
        out_of_fuel

  unfoldable pub fetch_state :
      PoliciesClient → Policy → Action (List ClusterUpgrade) → Action (List ClusterUpgrade)
  fetch_state client policy others = do
    reply ← send (get_policy_state client policy.id) (λ h. api.on_policy_state h client policy.id)
    state ← some_or_fail reply state_failed
    upgrades ← others
    pure (record { policy = policy; state = state } ∷ upgrades)

  -- The state of each policy that upgrades the cluster itself.
  unfoldable pub fetch_states : PoliciesClient → List Policy → Action (List ClusterUpgrade)
  fetch_states client [] = pure []
  fetch_states client (policy ∷ policies) =
      let others = fetch_states client policies in
      if policy.of_this_type then fetch_state client policy others else others

  unfoldable pub get_scheduled_upgrades : ℕ → PoliciesClient → Action (List ClusterUpgrade)
  get_scheduled_upgrades fuel client = do
    policies ← list_pages client fuel 1
    fetch_states client policies

  -- `upgrade.Delete`
  unfoldable pub cancel : Policy → Action (Unit {0})
  cancel policy = do
    deleted ←
        send (delete_policy policy.owner policy.id)
          (λ h. api.on_delete_policy h policy.owner policy.id)
    fail_unless deleted delete_failed

  -- One upgrade: whether the correct one is pending after it.
  unfoldable pub check_one : V → ℕ → Policy → V → Bool → PolicyState → Action Bool
  check_one desired limit policy to_version correct delayed =
      if semver.equal desired to_version then pure true else fail in_progress
  check_one desired limit policy to_version correct started =
      if semver.equal desired to_version then pure true else fail in_progress
  check_one desired limit policy to_version correct pending =
      if semver.equal desired to_version && ltb policy.next_run limit
      then pure true
      else (cancel policy >> pure correct)
  check_one desired limit policy to_version correct scheduled =
      if semver.equal desired to_version && ltb policy.next_run limit
      then pure true
      else (cancel policy >> pure correct)
  check_one desired limit policy to_version correct (other s) = pure correct

  unfoldable pub check_all : V → ℕ → Bool → List ClusterUpgrade → Action Bool
  check_all desired limit correct [] = pure correct
  check_all desired limit correct (upgrade ∷ upgrades) = do
    to_version ← some_or_fail (semver.parse upgrade.policy.version) upgrade_version_not_parsed
    still_correct ← check_one desired limit upgrade.policy to_version correct upgrade.state
    check_all desired limit still_correct upgrades

  unfoldable pub check_and_cancel_upgrades : List ClusterUpgrade → V → Action Bool
  check_and_cancel_upgrades upgrades desired h =
      check_all desired (now h + ten_minutes) false upgrades h
